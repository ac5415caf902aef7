-- ===== src/Ledger/Acceptance.antt =====
-- When the loop of `apply_block` (src/ledger.rs) takes a block without contracts.
use baa_ls.Prelude.{
  ◌≡◌, ◌↔◌, refl, ap, inl, inr, none, some, List, [], ◌∷◌, ◌++◌, Bytes, Result, ok, arith, All,
  Result-cases,
}
use baa_ls.Types.{
  TransactionPayload, transfer, contract_deploy, contract_call, data_payload, Transaction,
  account_nonce, set_nonce, Bincode,
}
use baa_ls.Storage.{Storage, StorageBatch, delete}
use baa_ls.BTreeMap.{insert}
use baa_ls.Contracts.{ContractEngine}
use baa_ls.Consensus.{next_u64}
use baa_ls.Ledger.{LedgerError}
use baa_ls.Ledger.Validation.{serialize}
use baa_ls.Ledger.Transactions.{Accounts, apply_payload, apply_transaction, apply_transactions}
use baa_ls.Ledger.Transfers.{CanTransfer, transferred, transfer_applies}
use baa_ls.Ledger.Permission.{by_sender}
use baa_ls.Ledger.Nonces.{
  IsPlain, IsPlainPayload, HasNextNonce, apply_transaction_reads, apply_transactions_reads,
}

module _ {S : Type 0} (storage : Storage S) (engine : ContractEngine S) (b : Bincode) where
  -- What the store permits, by the payload.
  abbrev pub CanPay : TransactionPayload → Transaction → S → Type 0
  CanPay (transfer amount) tx s = CanTransfer storage engine b tx amount s
  CanPay (data_payload bytes) tx s = HasNextNonce storage engine b s tx
  CanPay _ tx s = ⊥

  -- The store permits the transaction, and bincode writes its hash.
  abbrev pub CanApply : S → Transaction → Type 0
  CanApply s tx = CanPay tx.payload tx s × (key : Bytes) × (serialize b.hash_codec tx.hash ≡ ok key)

  data_applies :
      (tx : Transaction) (bytes : Bytes) (accounts : Accounts) (s : S)
      → tx.payload ≡ data_payload bytes
      → HasNextNonce storage engine b s tx
      → (accounts' : Accounts) × ((apply_transaction storage engine b tx accounts s).0
          ≡ ok accounts')
  unfolding apply_transaction apply_payload
  data_applies tx bytes accounts s kind (account, found, next) = (
    insert tx.sender (set_nonce account (next_u64 (account_nonce account))) accounts,
    ground (arith, found, next),
  )

  data_needs :
      (tx : Transaction) (accounts accounts' : Accounts) (s : S)
      → (apply_transaction storage engine b tx accounts s).0 ≡ ok accounts'
      → HasNextNonce storage engine b s tx
  unfolding apply_transaction
  data_needs tx accounts accounts' s h = elim (Result-cases (storage.get_account tx.sender s)) [
    | inl (some account, e) ↦ (account, e, ground arith)
    | inl (none, e) ↦ absurd (ground arith)
    | inr (x, e) ↦ absurd (ground arith)
  ]

  one_applies :
      (payload : TransactionPayload) (tx : Transaction) (accounts : Accounts) (s : S)
      → tx.payload ≡ payload
      → CanPay payload tx s
      → (accounts' : Accounts) × ((apply_transaction storage engine b tx accounts s).0
          ≡ ok accounts')
  one_applies (transfer amount) tx accounts s kind can = (
    transferred storage engine b tx amount s can accounts,
    ap (λ r. r.0) (transfer_applies storage engine b tx amount accounts s can kind),
  )
  one_applies (data_payload bytes) tx accounts s kind can =
      data_applies tx bytes accounts s kind can
  one_applies (contract_deploy wasm) tx accounts s kind can = absurd can
  one_applies (contract_call method args) tx accounts s kind can = absurd can

  pub one_needs :
      (payload : TransactionPayload) (tx : Transaction) (accounts accounts' : Accounts) (s : S)
      → tx.payload ≡ payload
      → IsPlainPayload payload
      → (apply_transaction storage engine b tx accounts s).0 ≡ ok accounts'
      → CanPay payload tx s
  one_needs (transfer amount) tx accounts accounts' s kind plain h =
      by_sender storage engine b tx amount accounts accounts' s kind h
        (storage.get_account tx.sender s) refl
  one_needs (data_payload bytes) tx accounts accounts' s kind plain h =
      data_needs tx accounts accounts' s h
  one_needs (contract_deploy wasm) tx accounts accounts' s kind plain h = absurd plain
  one_needs (contract_call method args) tx accounts accounts' s kind plain h = absurd plain

  loop_takes :
      (txs : List Transaction) (accounts : Accounts) (ops : StorageBatch) (s : S)
      → All IsPlain txs
      → All (CanApply s) txs
      → (left : Accounts × StorageBatch) × ((apply_transactions storage engine b txs accounts ops
            s).0
          ≡ ok left)
  unfolding apply_transactions
  loop_takes [] accounts ops s plain can = ((accounts, ops), refl)
  loop_takes (tx ∷ rest) accounts ops s plain can =
      let (can_pay, key, f) = can.0 in
      let (accounts', e) = one_applies tx.payload tx accounts s refl can_pay in
      let (left, g) = loop_takes rest accounts' (ops ++ delete key ∷ []) s plain.1 can.1 in
      (
        left,
        ground (arith, e, f, g, apply_transaction_reads storage engine b tx accounts s plain.0),
      )

  loop_needs :
      (txs : List Transaction) (accounts : Accounts) (ops : StorageBatch) (s : S)
      (left : Accounts × StorageBatch)
      → All IsPlain txs
      → (apply_transactions storage engine b txs accounts ops s).0 ≡ ok left
      → All (CanApply s) txs
  unfolding apply_transactions
  loop_needs [] accounts ops s left plain h = tt
  loop_needs (tx ∷ rest) accounts ops s left plain h =
      elim (Result-cases (apply_transaction storage engine b tx accounts s).0) [
        | inl (accounts', e) ↦ elim (Result-cases (serialize b.hash_codec tx.hash)) [
          | inl (key, f) ↦ (
            (one_needs tx.payload tx accounts accounts' s refl plain.0 e, key, f),
            loop_needs rest accounts' (ops ++ delete key ∷ []) s left plain.1 (
                ground
                  (arith, e, f, h, apply_transaction_reads storage engine b tx accounts s plain.0)),
          )
          | inr (x, f) ↦ absurd (
              ground
                (arith, e, f, h, apply_transaction_reads storage engine b tx accounts s plain.0))
        ]
        | inr (x, e) ↦ absurd (ground (arith, e, h))
      ]

  -- The loop of apply_block takes a block without contract payloads, with the store left as it
  -- was, exactly if bincode writes the hash of each transaction and the store permits each
  -- transaction by itself: a transfer where the sender is a wallet with the next nonce and enough
  -- balance and the recipient is a wallet address with no account or a wallet account, and a data
  -- transaction where the sender's account has the next nonce.
  pub apply_transactions_iff :
      (txs : List Transaction) (accounts : Accounts) (ops : StorageBatch) (s : S)
      → All IsPlain txs
      → ((left : Accounts × StorageBatch) × (apply_transactions storage engine b txs accounts ops s
            ≡ (ok left, s)))
        ↔ All (CanApply s) txs
  apply_transactions_iff txs accounts ops s plain = (
    (λ h.
        let (left, e) = h in
        loop_needs txs accounts ops s left plain
          (ap {A = Result LedgerError (Accounts × StorageBatch) × S} (λ r. r.0) e)),
    λ can.
        let (left, e) = loop_takes txs accounts ops s plain can in
        (
          left,
          ground (arith, e, apply_transactions_reads storage engine b txs accounts ops s plain),
        ),
  )
