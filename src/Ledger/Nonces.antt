-- ===== src/Ledger/Nonces.antt =====
-- The nonces in the loop of `apply_block` (src/ledger.rs), over blocks without contracts.
use baa_ls.Prelude.{
  ℕ, ◌≡◌, refl, ap, inl, inr, Option, none, some, List, [], ◌∷◌, ◌++◌, Result, ok, arith, All,
  Member, All-member, Result-cases,
}
use baa_ls.Prelude.Actions.{continue}
use baa_ls.Types.{
  PublicKey, Address, wallet, contract, TransactionPayload, transfer, contract_deploy,
  contract_call, data_payload, Transaction, Block, Account, account_nonce, set_nonce, Bincode,
}
use baa_ls.Storage.{Storage, StorageError, StorageBatch, delete}
use baa_ls.BTreeMap.{insert}
use baa_ls.Ledger.Validation.{serialize}
use baa_ls.Contracts.{ContractEngine}
use baa_ls.Consensus.{next_u64}
use baa_ls.Ledger.{LedgerState}
use baa_ls.Ledger.Application.{apply_block}
use baa_ls.Ledger.Transactions.{
  Accounts, debit, credit, apply_payload, apply_transaction, apply_transactions,
}

-- A payload that calls no contract engine.
abbrev pub IsPlainPayload : TransactionPayload → Type 0
IsPlainPayload (transfer amount) = Unit
IsPlainPayload (data_payload bytes) = Unit
IsPlainPayload _ = ⊥

abbrev pub IsPlain : Transaction → Type 0
IsPlain tx = IsPlainPayload tx.payload

module _ {S : Type 0} (storage : Storage S) (engine : ContractEngine S) (b : Bincode) where
  credit_reads :
      (address : Address) (amount : ℕ) (accounts : Accounts) (s : S)
      → (credit storage engine b address amount accounts s).1 ≡ s
  unfolding credit
  credit_reads (contract id) amount accounts s = refl
  credit_reads (wallet recipient) amount accounts s = ground arith

  payload_reads :
      (payload : TransactionPayload) (tx : Transaction) (account : Account) (accounts : Accounts)
      (s : S)
      → IsPlainPayload payload
      → (apply_payload storage engine b payload tx account accounts s).1 ≡ s
  unfolding apply_payload
  payload_reads (transfer amount) tx account accounts s plain =
      elim (Result-cases (debit storage engine b tx.sender amount accounts)) [
        | inl (debited, e) ↦ rw (e, continue) (credit_reads tx.recipient amount debited s)
        | inr (x, e) ↦ rw (e, continue)
      ]
  payload_reads (contract_deploy wasm) tx account accounts s plain = absurd plain
  payload_reads (contract_call method args) tx account accounts s plain = absurd plain
  payload_reads (data_payload bytes) tx account accounts s plain = refl

  pub apply_transaction_reads :
      (tx : Transaction) (accounts : Accounts) (s : S)
      → IsPlain tx
      → (apply_transaction storage engine b tx accounts s).1 ≡ s
  unfolding apply_transaction
  apply_transaction_reads tx accounts s plain =
      elim (Result-cases (storage.get_account tx.sender s)) [
        | inl (some account, e) ↦
            let advanced = set_nonce account (next_u64 (account_nonce account)) in
            ground (
              arith,
              payload_reads tx.payload tx advanced (insert tx.sender advanced accounts) s plain,
            )
        | inl (none, e) ↦ ground arith
        | inr (x, e) ↦ ground arith
      ]

  -- What one round of the loop needs: the sender has an account, and the nonce follows its nonce.
  abbrev pub HasNextNonce : S → Transaction → Type 0
  HasNextNonce s tx =
      (account : Account) × (storage.get_account tx.sender s ≡ ok (some account))
      × (tx.nonce ≡ next_u64 (account_nonce account))

  applied_next :
      (tx : Transaction) (accounts accounts' : Accounts) (s : S)
      → (apply_transaction storage engine b tx accounts s).0 ≡ ok accounts'
      → HasNextNonce s tx
  unfolding apply_transaction
  applied_next tx accounts accounts' s h = elim (Result-cases (storage.get_account tx.sender s)) [
    | inl (some account, e) ↦ (account, e, ground arith)
    | inl (none, e) ↦ absurd (ground arith)
    | inr (x, e) ↦ absurd (ground arith)
  ]

  -- one round, and the rest of the loop from the store that it left
  round_state :
      (tx : Transaction) (rest : List Transaction) (accounts : Accounts) (ops : StorageBatch)
      (s : S)
      → IsPlain tx
      → ((accounts' : Accounts) (ops' : StorageBatch)
          → (apply_transactions storage engine b rest accounts' ops' s).1 ≡ s)
      → (apply_transactions storage engine b (tx ∷ rest) accounts ops s).1 ≡ s
  unfolding apply_transactions
  round_state tx rest accounts ops s plain ih =
      elim (Result-cases (apply_transaction storage engine b tx accounts s).0) [
        | inl (accounts', e) ↦ elim (Result-cases (serialize b.hash_codec tx.hash)) [
          | inl (key, f) ↦ ground (
            arith,
            apply_transaction_reads tx accounts s plain,
            ih accounts' (ops ++ delete key ∷ []),
          )
          | inr (x, f) ↦ ground (arith, apply_transaction_reads tx accounts s plain)
        ]
        | inr (x, e) ↦ ground (arith, apply_transaction_reads tx accounts s plain)
      ]

  -- The loop writes nothing to the store.
  pub apply_transactions_reads :
      (txs : List Transaction) (accounts : Accounts) (ops : StorageBatch) (s : S)
      → All IsPlain txs
      → (apply_transactions storage engine b txs accounts ops s).1 ≡ s
  unfolding apply_transactions
  apply_transactions_reads [] accounts ops s plain = refl
  apply_transactions_reads (tx ∷ rest) accounts ops s plain =
      round_state tx rest accounts ops s plain.0
        (λ accounts' ops'. apply_transactions_reads rest accounts' ops' s plain.1)

  pub apply_transactions_next :
      (txs : List Transaction) (accounts : Accounts) (ops : StorageBatch) (s : S)
      {result : Accounts × StorageBatch}
      → All IsPlain txs
      → (apply_transactions storage engine b txs accounts ops s).0 ≡ ok result
      → All (HasNextNonce s) txs
  unfolding apply_transactions
  apply_transactions_next [] accounts ops s plain h = tt
  apply_transactions_next (tx ∷ rest) accounts ops s {result} plain h =
      elim (Result-cases (apply_transaction storage engine b tx accounts s).0) [
        | inl (accounts', e) ↦ elim (Result-cases (serialize b.hash_codec tx.hash)) [
          | inl (key, f) ↦ (
            applied_next tx accounts accounts' s e,
            apply_transactions_next rest accounts' (ops ++ delete key ∷ []) s {result = result}
                plain.1 (ground (arith, apply_transaction_reads tx accounts s plain.0)),
          )
          | inr (x, f) ↦ absurd (ground arith)
        ]
        | inr (x, e) ↦ absurd (ground arith)
      ]

  applied_transactions :
      (block : Block) (w : LedgerState S)
      → (apply_block storage engine b block w).0 ≡ ok tt
      → (result : Accounts × StorageBatch) × ((apply_transactions storage engine b
            block.transactions [] [] w.storage).0
          ≡ ok result)
  unfolding apply_block
  applied_transactions block w h =
      elim (Result-cases
        (apply_transactions storage engine b block.transactions [] [] w.storage).0) [
          | inl (result, e) ↦ (result, e)
          | inr (x, e) ↦ absurd (ground arith)
        ]

  -- In an applied block without contract payloads, a transaction's nonce follows the nonce that
  -- its sender has in the store before the block, and two transactions of one sender have the same
  -- nonce.
  pub apply_block_nonces :
      (block : Block) (w : LedgerState S) (tx other : Transaction)
      → All IsPlain block.transactions
      → (apply_block storage engine b block w).0 ≡ ok tt
      → Member tx block.transactions
      → Member other block.transactions
      → tx.sender ≡ other.sender
      → HasNextNonce w.storage tx × (tx.nonce ≡ other.nonce)
  apply_block_nonces block w tx other plain applied m n same =
      let (result, e) = applied_transactions block w applied in
      let every =
        apply_transactions_next block.transactions [] [] w.storage {result = result} plain e in
      let (account, stored, next) =
        All-member (HasNextNonce w.storage) tx block.transactions every m in
      let (account', stored', next') =
        All-member (HasNextNonce w.storage) other block.transactions every n in
      (
        (account, stored, next),
        one_account account account'
            (ap {B = Result StorageError (Option Account)}
              (λ (k : PublicKey). storage.get_account k w.storage) same)
            stored stored' next next',
      )
    where
      one_account :
          (a a' : Account)
          → storage.get_account tx.sender w.storage ≡ storage.get_account other.sender w.storage
          → storage.get_account tx.sender w.storage ≡ ok (some a)
          → storage.get_account other.sender w.storage ≡ ok (some a')
          → tx.nonce ≡ next_u64 (account_nonce a)
          → other.nonce ≡ next_u64 (account_nonce a')
          → tx.nonce ≡ other.nonce
      one_account a a' p e f n m = ground arith
