-- ===== src/Ledger/Independent.antt =====
-- Transfers between different parties in the loop of `apply_block` (src/ledger.rs).
use baa_ls.Prelude.{
  ℕ, ◌+◌, ◌-◌, ◌^◌, ◌<◌, ◌≡◌, ◌≢◌, refl, sym, ap, ◌∙◌, some, List, [], ◌∷◌, ◌++◌, Bytes, ok, arith,
  All,
}
use baa_ls.Types.{PublicKey, Transaction, transfer, wallet_account, Bincode}
use baa_ls.Storage.{Storage, StorageBatch, delete}
use baa_ls.BTreeMap.{get, key_eq_refl, key_eq_ne}
use baa_ls.Contracts.{ContractEngine}
use baa_ls.Consensus.{next_u64}
use baa_ls.Ledger.Validation.{serialize}
use baa_ls.Ledger.Transactions.{Accounts, apply_transactions}
use baa_ls.Ledger.Transfers.{
  balance_of, CanTransfer, transferred, transfer_applies, credited, get-transferred,
  credited_balance,
}

module _ {S : Type 0} (storage : Storage S) (engine : ContractEngine S) (b : Bincode) where
  -- A transfer to another party that the store permits, and whose hash can be written.
  pub record Payment (s : S) : Type 0 where
    pub tx : Transaction
    pub amount : ℕ
    pub can : CanTransfer storage engine b tx amount s
    pub kind : tx.payload ≡ transfer amount
    pub apart : tx.sender ≢ can.recipient
    pub fits : balance_of can.found + amount < 2 ^ 64
    pub key : Bytes
    pub encoded : serialize b.hash_codec tx.hash ≡ ok key

  -- The key is no party of the payment.
  abbrev pub IsOutside : {s : S} → PublicKey → Payment s → Type 0
  IsOutside k p = (p.tx.sender ≢ k) × (p.can.recipient ≢ k)

  -- No party of one payment is a party of another.
  abbrev pub IsIndependent : {s : S} → List (Payment s) → Type 0
  IsIndependent [] = Unit
  IsIndependent (p ∷ rest) =
      All (IsOutside p.tx.sender) rest × All (IsOutside p.can.recipient) rest × IsIndependent rest

  abbrev pub transactions : {s : S} → List (Payment s) → List Transaction
  transactions [] = []
  transactions (p ∷ rest) = p.tx ∷ transactions rest

  -- What the two parties have after it.
  pub record IsSettled {s : S} (accounts : Accounts) (p : Payment s) : Type 0 where
    pub sender_lem :
        get p.tx.sender accounts
        ≡ some (wallet_account (p.can.balance - p.amount) (next_u64 p.can.nonce))
    pub recipient_lem :
        balance_of (get p.can.recipient accounts) ≡ balance_of p.can.found + p.amount

  -- The sum of the parties' balances in the update map, and in the store.
  abbrev pub updated_total : {s : S} → Accounts → List (Payment s) → ℕ
  updated_total accounts [] = 0
  updated_total accounts (p ∷ rest) =
      balance_of (get p.tx.sender accounts)
      + balance_of (get p.can.recipient accounts)
      + updated_total accounts rest

  abbrev pub stored_total : {s : S} → List (Payment s) → ℕ
  stored_total [] = 0
  stored_total (p ∷ rest) = p.can.balance + balance_of p.can.found + stored_total rest

  abbrev pub settle : {s : S} → List (Payment s) → Accounts → Accounts
  settle [] accounts = accounts
  settle {s} (p ∷ rest) accounts =
      settle rest (transferred storage engine b p.tx p.amount s p.can accounts)

  get_outside :
      {s : S} (k : PublicKey) (ps : List (Payment s)) (accounts : Accounts)
      → All (IsOutside k) ps
      → get k (settle ps accounts) ≡ get k accounts
  get_outside k [] accounts h = refl
  get_outside {s} k (p ∷ rest) accounts h =
      get_outside k rest (transferred storage engine b p.tx p.amount s p.can accounts) h.1
      ∙ (get-transferred storage engine b p.tx p.amount accounts s p.can k
          ∙ rw (key_eq_ne p.can.recipient k h.0.1, key_eq_ne p.tx.sender k h.0.0) refl)

  transferred-IsSettled :
      {s : S} (p : Payment s) (accounts : Accounts)
      → IsSettled (transferred storage engine b p.tx p.amount s p.can accounts) p
  transferred-IsSettled {s} p accounts = record {
    sender_lem =
        get-transferred storage engine b p.tx p.amount accounts s p.can p.tx.sender
        ∙ rw (key_eq_ne p.can.recipient p.tx.sender (λ e. p.apart (sym e)), key_eq_refl p.tx.sender)
            refl;
    recipient_lem =
        ap balance_of {y = some (credited storage engine b p.can.found p.amount)} (
          get-transferred storage engine b p.tx p.amount accounts s p.can p.can.recipient
          ∙ rw (key_eq_refl p.can.recipient) refl)
        ∙ credited_balance storage engine b p.can.found p.amount p.can.can_receive p.fits;
  }

  settled :
      {s : S} (ps : List (Payment s)) (accounts : Accounts)
      → IsIndependent ps
      → All (IsSettled (settle ps accounts)) ps
  settled [] accounts h = tt
  settled {s} (p ∷ rest) accounts h =
      let next = transferred storage engine b p.tx p.amount s p.can accounts in
      let first = transferred-IsSettled p accounts in
      (
        record {
          sender_lem = get_outside p.tx.sender rest next h.0 ∙ first.sender_lem;
          recipient_lem =
              ap balance_of (get_outside p.can.recipient rest next h.1) ∙ first.recipient_lem;
        },
        settled rest next h.2,
      )

  pub all_applied :
      {s : S} (ps : List (Payment s)) (accounts : Accounts) (ops : StorageBatch)
      → (ops' : StorageBatch) × (apply_transactions storage engine b
            (transactions ps)
            accounts
            ops
            s
          ≡ (ok (settle ps accounts, ops'), s))
  unfolding apply_transactions
  all_applied [] accounts ops = (ops, refl)
  all_applied {s} (p ∷ rest) accounts ops =
      let (ops', e) =
        all_applied rest (transferred storage engine b p.tx p.amount s p.can accounts)
          (ops ++ delete p.key ∷ []) in
      (
        ops',
        ground (
          arith,
          transfer_applies storage engine b p.tx p.amount accounts s p.can p.kind,
          p.encoded,
          e,
        ),
      )

  totals :
      {s : S} (ps : List (Payment s)) (accounts : Accounts)
      → All (IsSettled accounts) ps
      → updated_total accounts ps ≡ stored_total ps
  totals [] accounts h = refl
  totals (p ∷ rest) accounts h = omega (
    arith,
    totals rest accounts h.1,
    ap balance_of h.0.sender_lem,
    h.0.recipient_lem,
    p.can.covered,
  )

  -- The loop of apply_block over any number of transfers that the store permits, between parties
  -- that are all different, with sums that fit u64 and hashes that can be written, succeeds and
  -- leaves the store unchanged: each sender has lost its amount and has the next nonce, each
  -- recipient has gained it, and the balances of all parties in the update map add up to what they
  -- had stored.
  pub apply_transactions_conserves :
      (s : S) (ps : List (Payment s))
      → IsIndependent ps
      → (accounts : Accounts) × (ops : StorageBatch) × (apply_transactions storage engine b
            (transactions ps)
            []
            []
            s
          ≡ (ok (accounts, ops), s))
        × All (IsSettled accounts) ps
        × (updated_total accounts ps ≡ stored_total ps)
  apply_transactions_conserves s ps independent =
      let (ops, e) = all_applied ps [] [] in
      let h = settled ps [] independent in (settle ps [], ops, e, h, totals ps (settle ps []) h)
