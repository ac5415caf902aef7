-- ===== src/Ledger/Replay.antt =====
-- The loop of `apply_block` (src/ledger.rs) from two stores.
use baa_ls.Prelude.{
  ℕ, ◌≡◌, refl, inl, inr, none, some, List, [], ◌∷◌, ◌++◌, arith, All, Result-cases,
}
use baa_ls.Prelude.Actions.{continue}
use baa_ls.Types.{
  PublicKey, Address, wallet, contract, TransactionPayload, transfer, contract_deploy,
  contract_call, data_payload, Transaction, Account, account_nonce, set_nonce, Bincode,
}
use baa_ls.Storage.{Storage, StorageBatch, delete}
use baa_ls.BTreeMap.{insert}
use baa_ls.Contracts.{ContractEngine}
use baa_ls.Consensus.{next_u64}
use baa_ls.Ledger.Validation.{serialize}
use baa_ls.Ledger.Transactions.{
  Accounts, debit, credit, apply_payload, apply_transaction, apply_transactions,
}
use baa_ls.Ledger.Nonces.{IsPlainPayload, IsPlain, apply_transaction_reads}

module _ {S : Type 0} (storage : Storage S) (engine : ContractEngine S) (b : Bincode) (s s' : S)
    (same : (k : PublicKey) → storage.get_account k s ≡ storage.get_account k s') where
  credit_same :
      (address : Address) (amount : ℕ) (accounts : Accounts)
      → (credit storage engine b address amount accounts s).0
        ≡ (credit storage engine b address amount accounts s').0
  unfolding credit
  credit_same (contract id) amount accounts = refl
  credit_same (wallet recipient) amount accounts = ground (arith, same recipient)

  payload_same :
      (payload : TransactionPayload) (tx : Transaction) (account : Account) (accounts : Accounts)
      → IsPlainPayload payload
      → (apply_payload storage engine b payload tx account accounts s).0
        ≡ (apply_payload storage engine b payload tx account accounts s').0
  unfolding apply_payload
  payload_same (transfer amount) tx account accounts plain =
      elim (Result-cases (debit storage engine b tx.sender amount accounts)) [
        | inl (debited, e) ↦ rw (e, continue) (credit_same tx.recipient amount debited)
        | inr (x, e) ↦ rw (e, continue)
      ]
  payload_same (contract_deploy wasm) tx account accounts plain = absurd plain
  payload_same (contract_call method args) tx account accounts plain = absurd plain
  payload_same (data_payload bytes) tx account accounts plain = refl

  transaction_same :
      (tx : Transaction) (accounts : Accounts)
      → IsPlain tx
      → (apply_transaction storage engine b tx accounts s).0
        ≡ (apply_transaction storage engine b tx accounts s').0
  unfolding apply_transaction
  transaction_same tx accounts plain = elim (Result-cases (storage.get_account tx.sender s)) [
    | inl (some account, e) ↦
        let advanced = set_nonce account (next_u64 (account_nonce account)) in
        ground (
          arith,
          same tx.sender,
          payload_same tx.payload tx advanced (insert tx.sender advanced accounts) plain,
        )
    | inl (none, e) ↦ ground (arith, same tx.sender)
    | inr (x, e) ↦ ground (arith, same tx.sender)
  ]

  -- Two stores with the same accounts give the loop the same result.
  pub apply_transactions_same :
      (txs : List Transaction) (accounts : Accounts) (ops : StorageBatch)
      → All IsPlain txs
      → (apply_transactions storage engine b txs accounts ops s).0
        ≡ (apply_transactions storage engine b txs accounts ops s').0
  unfolding apply_transactions
  apply_transactions_same [] accounts ops plain = refl
  apply_transactions_same (tx ∷ rest) accounts ops plain =
      let first = transaction_same tx accounts plain.0 in
      let r = apply_transaction_reads storage engine b tx accounts s plain.0 in
      let r' = apply_transaction_reads storage engine b tx accounts s' plain.0 in
      elim (Result-cases (apply_transaction storage engine b tx accounts s).0) [
        | inl (accounts', e) ↦ elim (Result-cases (serialize b.hash_codec tx.hash)) [
          | inl (key, f) ↦ ground (
            arith,
            first,
            r,
            r',
            apply_transactions_same rest accounts' (ops ++ delete key ∷ []) plain.1,
          )
          | inr (x, f) ↦ ground (arith, first, r, r')
        ]
        | inr (x, e) ↦ ground (arith, first, r, r')
      ]
