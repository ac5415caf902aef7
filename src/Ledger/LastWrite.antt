-- ===== src/Ledger/LastWrite.antt =====
-- Which transaction decides an entry of the updated accounts of `apply_block` (src/ledger.rs).
use baa_ls.Prelude.{
  ℕ, ◌-◌, ◌≡◌, refl, sym, ◌∙◌, ap, ◌⊎◌, inl, inr, Option, none, some, List, [], ◌∷◌, ◌++◌, ok,
  arith, All, Result-cases, Bool-cases, Bytes, subst, false,
}
use baa_ls.Types.{
  PublicKey, wallet, TransactionPayload, transfer, contract_deploy, contract_call, data_payload,
  Transaction, Account, wallet_account, contract_account, account_nonce, set_nonce, Bincode,
}
use baa_ls.Storage.{Storage, StorageBatch, delete}
use baa_ls.BTreeMap.{get, insert, get-insert, key_eq, key_eq_sound, key_eq_refl}
use baa_ls.Contracts.{ContractEngine}
use baa_ls.Consensus.{next_u64}
use baa_ls.Ledger.Validation.{serialize}
use baa_ls.Ledger.Transactions.{Accounts, apply_payload, apply_transaction, apply_transactions}
use baa_ls.Ledger.Transfers.{
  CanTransfer, CanReceive, credited, transferred, transfer_applies, get-transferred,
}
use baa_ls.Ledger.Acceptance.{CanPay, one_needs}
use baa_ls.Ledger.Nonces.{IsPlain, apply_transaction_reads}

-- A transfer to the wallet of this key.
abbrev pub IsPaid : PublicKey → Transaction → Type 0
IsPaid k tx = (amount : ℕ) × (tx.payload ≡ transfer amount) × (tx.recipient ≡ wallet k)

-- Neither the sender nor paid.
abbrev pub IsUntouched : PublicKey → Transaction → Type 0
IsUntouched k tx = (¬ (tx.sender ≡ k)) × (¬ IsPaid k tx)

-- The sender's stored account, with the next nonce and without the amount.
abbrev pub spent : TransactionPayload → Account → Account
spent (transfer amount) (wallet_account balance nonce) =
    wallet_account (balance - amount) (next_u64 nonce)
spent payload (wallet_account balance nonce) = wallet_account balance (next_u64 nonce)
spent payload (contract_account code_hash storage_root_hash nonce) =
    contract_account code_hash storage_root_hash (next_u64 nonce)

module _ {S : Type 0} (storage : Storage S) (engine : ContractEngine S) (b : Bincode) (s : S)
    (k : PublicKey) where
  -- What a transaction makes of the stored account of its recipient, or else of its sender.
  abbrev pub Writes : Transaction → Account → Type 0
  Writes tx a =
      ((amount : ℕ) × (found : Option Account) × (tx.payload ≡ transfer amount)
        × (tx.recipient ≡ wallet k)
        × (storage.get_account k s ≡ ok found)
        × CanReceive found
        × (a ≡ credited storage engine b found amount))
      ⊎ ((old : Account) × (¬ IsPaid k tx)
          × (tx.sender ≡ k)
          × (storage.get_account k s ≡ ok (some old))
          × (a ≡ spent tx.payload old))

  -- The last transaction that touches the key writes this account.
  abbrev pub IsLastWrite : Account → List Transaction → Type 0
  IsLastWrite a [] = ⊥
  IsLastWrite a (tx ∷ rest) = IsLastWrite a rest ⊎ (Writes tx a × All (IsUntouched k) rest)

  -- the entry of the key after one transaction
  abbrev Step : Transaction → Accounts → Accounts → Type 0
  Step tx accounts accounts' =
      ((a : Account) × (get k accounts' ≡ some a) × Writes tx a)
      ⊎ (IsUntouched k tx × (get k accounts' ≡ get k accounts))

  wallet_sound : (x y : PublicKey) → wallet x ≡ wallet y → x ≡ y
  wallet_sound x y e = cc

  transfer_steps :
      (tx : Transaction) (amount : ℕ) (accounts : Accounts)
      (can : CanTransfer storage engine b tx amount s)
      → tx.payload ≡ transfer amount
      → Step tx accounts (transferred storage engine b tx amount s can accounts)
  transfer_steps tx amount accounts can kind =
      let e = get-transferred storage engine b tx amount accounts s can k in
      elim (Bool-cases (key_eq can.recipient k)) [
        | inl paid ↦
            (let same = key_eq_sound can.recipient k paid in
              inl (
                credited storage engine b can.found amount,
                rw paid at e,
                inl (
                  amount,
                  can.found,
                  kind,
                  can.recipient_lem ∙ ap wallet same,
                  rw (← same) can.found_lem,
                  can.can_receive,
                  refl,
                ),
              ))
        | inr unpaid ↦ elim (Bool-cases (key_eq tx.sender k)) [
          | inl sent ↦
              (let same = key_eq_sound tx.sender k sent in
                inl (
                  wallet_account (can.balance - amount) (next_u64 can.nonce),
                  rw (unpaid, sent) at e,
                  inr (
                    wallet_account can.balance can.nonce,
                    not_paid unpaid,
                    same,
                    rw (← same) can.sender_lem,
                    rw kind refl,
                  ),
                ))
          | inr unsent ↦
              inr
                ((λ same. ground (arith, key_eq_refl k), not_paid unpaid), rw (unpaid, unsent) at e)
        ]
      ]
    where
      not_paid : key_eq can.recipient k ≡ false → ¬ IsPaid k tx
      not_paid other (m, kind', to) =
          let same = wallet_sound can.recipient k (sym can.recipient_lem ∙ to) in
          ground (arith, key_eq_refl k)

  data_steps :
      (tx : Transaction) (bytes : Bytes) (account : Account) (accounts accounts' : Accounts)
      → tx.payload ≡ data_payload bytes
      → storage.get_account tx.sender s ≡ ok (some account)
      → accounts' ≡ insert tx.sender (set_nonce account (next_u64 (account_nonce account))) accounts
      → Step tx accounts accounts'
  unfolding set_nonce account_nonce
  data_steps tx bytes account accounts accounts' kind found e =
      let advanced = set_nonce account (next_u64 (account_nonce account)) in
      let e' = ap (get k) e ∙ get-insert tx.sender k advanced accounts in
      elim (Bool-cases (key_eq tx.sender k)) [
        | inl sent ↦
            (let same = key_eq_sound tx.sender k sent in
              inl (
                advanced,
                rw sent at e',
                inr (account, not_paid, same, rw (← same) found, rw kind (advances account)),
              ))
        | inr unsent ↦ inr ((λ same. ground (arith, key_eq_refl k), not_paid), rw unsent at e')
      ]
    where
      not_paid : ¬ IsPaid k tx
      not_paid (m, kind', to) = cc (kind, kind')

      advances :
          (a : Account) → set_nonce a (next_u64 (account_nonce a)) ≡ spent (data_payload bytes) a
      advances (wallet_account balance nonce) = refl
      advances (contract_account code_hash storage_root_hash nonce) = refl

  payload_steps :
      (payload : TransactionPayload) (tx : Transaction) (accounts accounts' : Accounts)
      → tx.payload ≡ payload
      → CanPay storage engine b payload tx s
      → (apply_transaction storage engine b tx accounts s).0 ≡ ok accounts'
      → Step tx accounts accounts'
  unfolding apply_transaction apply_payload
  payload_steps (transfer amount) tx accounts accounts' kind can e =
      subst (Step tx accounts) {x = transferred storage engine b tx amount s can accounts}
        (ground (arith, transfer_applies storage engine b tx amount accounts s can kind))
        (transfer_steps tx amount accounts can kind)
  payload_steps (data_payload bytes) tx accounts accounts' kind (account, found, next) e =
      data_steps tx bytes account accounts accounts' kind found (ground (arith, found, next))
  payload_steps (contract_deploy wasm) tx accounts accounts' kind can e = absurd can
  payload_steps (contract_call method args) tx accounts accounts' kind can e = absurd can

  loop_writes :
      (txs : List Transaction) (accounts accounts' : Accounts) (ops ops' : StorageBatch)
      → All IsPlain txs
      → (apply_transactions storage engine b txs accounts ops s).0 ≡ ok (accounts', ops')
      → ((a : Account) × (get k accounts' ≡ some a) × IsLastWrite a txs)
        ⊎ (All (IsUntouched k) txs × (get k accounts' ≡ get k accounts))
  unfolding apply_transactions
  loop_writes [] accounts accounts' ops ops' plain e =
      inr (tt, ap (get k) {x = accounts'} {y = accounts} (ground arith))
  loop_writes (tx ∷ rest) accounts accounts' ops ops' plain e =
      elim (Result-cases (apply_transaction storage engine b tx accounts s).0) [
        | inl (next, p) ↦ elim (Result-cases (serialize b.hash_codec tx.hash)) [
          | inl (key, q) ↦
              elim (loop_writes rest next accounts' (ops ++ delete key ∷ []) ops' plain.1
                (ground (arith, apply_transaction_reads storage engine b tx accounts s plain.0))) [
                  | inl (a, found, last) ↦ inl (a, found, inl last)
                  | inr (none_later, same) ↦
                      elim (payload_steps tx.payload tx accounts next refl
                        (one_needs storage engine b tx.payload tx accounts next s refl plain.0 p)
                        p) [
                          | inl (a, found, writes) ↦ inl (a, same ∙ found, inr (writes, none_later))
                          | inr (untouched, kept) ↦ inr ((untouched, none_later), same ∙ kept)
                        ]
                ]
          | inr (x, q) ↦ absurd (ground arith)
        ]
        | inr (x, p) ↦ absurd (ground arith)
      ]

  -- When the loop of apply_block, from no updated accounts, succeeds on transactions without
  -- contract payloads, the last transaction that sends from a key or transfers to its wallet
  -- decides the updated account of that key, from the stored account alone: a recipient's with the
  -- amount added modulo 2^64 (or a new wallet of the amount), and else a sender's with the next
  -- nonce and, for a transfer from a wallet, without the amount; a key that no transaction touches
  -- has no updated account.
  pub apply_transactions-IsLastWrite :
      (txs : List Transaction) (accounts : Accounts) (ops ops' : StorageBatch)
      → All IsPlain txs
      → (apply_transactions storage engine b txs [] ops s).0 ≡ ok (accounts, ops')
      → ((a : Account) × (get k accounts ≡ some a) × IsLastWrite a txs)
        ⊎ (All (IsUntouched k) txs × (get k accounts ≡ none))
  unfolding get
  apply_transactions-IsLastWrite txs accounts ops ops' plain e =
      loop_writes txs [] accounts ops ops' plain e
