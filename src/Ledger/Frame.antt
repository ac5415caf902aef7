-- ===== src/Ledger/Frame.antt =====
-- Views of the store through `apply_block` (src/ledger.rs).
use baa_ls.Prelude.{
  ℕ, ◌+◌, ◌%◌, ◌^◌, ◌≡◌, refl, inl, inr, none, some, List, [], ◌∷◌, ◌++◌, Bytes, arith,
  Result-cases,
}
use baa_ls.Prelude.Actions.{continue}
use baa_ls.Types.{
  PublicKey, ContractId, Address, wallet, contract, TransactionPayload, transfer, contract_deploy,
  contract_call, data_payload, Transaction, Block, Account, account_nonce, set_nonce, Hash, Bincode,
}
use baa_ls.Storage.{Storage, StorageBatch, delete}
use baa_ls.BTreeMap.{insert}
use baa_ls.Contracts.{ContractEngine}
use baa_ls.Consensus.{next_u64}
use baa_ls.Ledger.{LedgerState}
use baa_ls.Ledger.Validation.{serialize}
use baa_ls.Ledger.Transactions.{
  Accounts, debit, credit, call_recipient, apply_payload, apply_transaction, apply_transactions,
}
use baa_ls.Ledger.Application.{
  account_puts, chain_state_put, advance, index_transactions, write_block, finish_block,
  apply_block,
}

-- The calls that `apply_block` makes on the store and the engine keep the view.
pub record Keeps {S V : Type 0} (storage : Storage S) (engine : ContractEngine S) (view : S → V)
    : Type 0 where
  pub deploy_keeps :
      (deployer : PublicKey) (wasm : Bytes) (gas : ℕ) (s : S)
      → view (engine.deploy_contract deployer wasm none storage gas s).1 ≡ view s
  pub call_keeps :
      (caller : PublicKey) (id : ContractId) (method args : Bytes) (s : S)
      → view (engine.call_contract caller id method args storage s).1 ≡ view s
  pub index_keeps :
      (tx_hash block_hash : Hash) (i : ℕ) (s : S)
      → view (storage.index_transaction tx_hash block_hash i s).1 ≡ view s
  pub batch_keeps : (ops : StorageBatch) (s : S) → view (storage.apply_batch ops s).1 ≡ view s

module _ {S V : Type 0} (storage : Storage S) (engine : ContractEngine S) (b : Bincode)
    (view : S → V) (keeps : Keeps storage engine view) where
  credit_keeps :
      (address : Address) (amount : ℕ) (accounts : Accounts) (s : S)
      → view (credit storage engine b address amount accounts s).1 ≡ view s
  unfolding credit
  credit_keeps (contract id) amount accounts s = refl
  credit_keeps (wallet recipient) amount accounts s = ground arith

  call_recipient_keeps :
      (address : Address) (sender : PublicKey) (method args : Bytes) (accounts : Accounts) (s : S)
      → view (call_recipient storage engine b address sender method args accounts s).1 ≡ view s
  unfolding call_recipient
  call_recipient_keeps (wallet recipient) sender method args accounts s = refl
  call_recipient_keeps (contract id) sender method args accounts s =
      keeps.call_keeps sender id method args s

  payload_keeps :
      (payload : TransactionPayload) (tx : Transaction) (account : Account) (accounts : Accounts)
      (s : S)
      → view (apply_payload storage engine b payload tx account accounts s).1 ≡ view s
  unfolding apply_payload
  payload_keeps (transfer amount) tx account accounts s =
      elim (Result-cases (debit storage engine b tx.sender amount accounts)) [
        | inl (debited, e) ↦ rw (e, continue) (credit_keeps tx.recipient amount debited s)
        | inr (x, e) ↦ rw (e, continue)
      ]
  payload_keeps (contract_deploy wasm) tx account accounts s =
      ground (arith, keeps.deploy_keeps tx.sender wasm tx.gas_limit s)
  payload_keeps (contract_call method args) tx account accounts s =
      call_recipient_keeps tx.recipient tx.sender method args accounts s
  payload_keeps (data_payload bytes) tx account accounts s = refl

  transaction_keeps :
      (tx : Transaction) (accounts : Accounts) (s : S)
      → view (apply_transaction storage engine b tx accounts s).1 ≡ view s
  unfolding apply_transaction
  transaction_keeps tx accounts s = elim (Result-cases (storage.get_account tx.sender s)) [
    | inl (some account, e) ↦
        let advanced = set_nonce account (next_u64 (account_nonce account)) in
        ground (arith, payload_keeps tx.payload tx advanced (insert tx.sender advanced accounts) s)
    | inl (none, e) ↦ ground arith
    | inr (x, e) ↦ ground arith
  ]

  transactions_keep :
      (txs : List Transaction) (accounts : Accounts) (ops : StorageBatch) (s : S)
      → view (apply_transactions storage engine b txs accounts ops s).1 ≡ view s
  unfolding apply_transactions
  transactions_keep [] accounts ops s = refl
  transactions_keep (tx ∷ rest) accounts ops s =
      elim (Result-cases (apply_transaction storage engine b tx accounts s).0) [
        | inl (accounts', e) ↦ elim (Result-cases (serialize b.hash_codec tx.hash)) [
          | inl (key, f) ↦ ground (
            arith,
            transaction_keeps tx accounts s,
            transactions_keep rest accounts' (ops ++ delete key ∷ [])
                (apply_transaction storage engine b tx accounts s).1,
          )
          | inr (x, f) ↦ ground (arith, transaction_keeps tx accounts s)
        ]
        | inr (x, e) ↦ ground (arith, transaction_keeps tx accounts s)
      ]

  index_transactions_keep :
      (block_hash : Hash) (i : ℕ) (txs : List Transaction) (s : S)
      → view (index_transactions storage engine b block_hash i txs s).1 ≡ view s
  unfolding index_transactions
  index_transactions_keep block_hash i [] s = refl
  index_transactions_keep block_hash i (tx ∷ rest) s = ground (
    arith,
    keeps.index_keeps tx.hash block_hash (i % 2 ^ 32) s,
    index_transactions_keep block_hash (i + 1) rest
        (storage.index_transaction tx.hash block_hash (i % 2 ^ 32) s).1,
  )

  write_block_keeps :
      (block : Block) (ops : StorageBatch) (s : S)
      → view (write_block storage engine b block ops s).1 ≡ view s
  unfolding write_block
  write_block_keeps block ops s = ground (
    arith,
    index_transactions_keep block.hash 0 block.transactions s,
    keeps.batch_keeps ops (index_transactions storage engine b block.hash 0 block.transactions s).1,
  )

  finish_block_keeps :
      (block : Block) (ops : StorageBatch) (w : LedgerState S)
      → view (finish_block storage engine b block ops w).1.storage ≡ view w.storage
  unfolding finish_block
  finish_block_keeps block ops w = elim (Result-cases (chain_state_put b w.chain_state)) [
    | inl (state_put, e) ↦ ground (arith, write_block_keeps block (ops ++ state_put) w.storage)
    | inr (x, e) ↦ ground arith
  ]

  pub apply_block_keeps :
      (block : Block) (w : LedgerState S)
      → view (apply_block storage engine b block w).1.storage ≡ view w.storage
  unfolding apply_block
  apply_block_keeps block w =
      let loop = apply_transactions storage engine b block.transactions [] [] w.storage in
      let kept = transactions_keep block.transactions [] [] w.storage in
      elim (Result-cases loop.0) [
        | inl ((accounts, deletes), e) ↦ elim (Result-cases (account_puts b accounts)) [
          | inl (puts, f) ↦ ground (
            arith,
            kept,
            finish_block_keeps block (deletes ++ puts)
                (record { storage = loop.1; chain_state = advance block w.chain_state }),
          )
          | inr (x, f) ↦ ground (arith, kept)
        ]
        | inr (x, e) ↦ ground (arith, kept)
      ]
