-- ===== src/Ledger/Application.antt =====
-- src/ledger.rs, `apply_block`: the batch, the chain state and the index of the transactions.
use baa_ls.Prelude.{ℕ, ◌+◌, ◌%◌, ◌^◌, List, [], ◌∷◌, ◌++◌, codes, Result, ok, err, ◌>>=◌, Action}
use baa_ls.Prelude.Actions
use baa_ls.Types.{Hash, Transaction, Block, ChainState, Bincode}
use baa_ls.Storage.{StorageError, put, StorageBatch, Storage}
use baa_ls.Contracts.{ContractEngine}
use baa_ls.Ledger.{LedgerError, storage_error, LedgerState}
use baa_ls.Ledger.Validation.{serialize}
use baa_ls.Ledger.Transactions.{Accounts, apply_transactions}

-- one `Put` for each updated account, in the order of the keys
unfoldable pub account_puts : Bincode → Accounts → Result LedgerError StorageBatch
account_puts b [] = ok []
account_puts b ((address, account) ∷ rest) = do
  key ← serialize b.key_codec address
  value ← serialize b.account_codec account
  ops ← account_puts b rest
  ok (put key value ∷ ops)

-- the chain state after a block
unfoldable pub advance : Block → ChainState → ChainState
advance block current = record current {
  latest_block_hash = block.hash;
  latest_block_index = block.index;
}

unfoldable pub chain_state_put : Bincode → ChainState → Result LedgerError StorageBatch
chain_state_put b state = do
  key ← serialize b.text_codec (codes "global:current")
  value ← serialize b.chain_state_codec state
  ok (put key value ∷ [])

module _ {S : Type 0} (storage : Storage S) (engine : ContractEngine S) (b : Bincode) where
  -- `for (i, tx) in block.transactions.iter().enumerate()`, with `i as u32`
  unfoldable pub index_transactions : Hash → ℕ → List Transaction → Action S StorageError Unit
  index_transactions block_hash i [] = Actions.pure tt
  index_transactions block_hash i (tx ∷ rest) =
      Actions.◌>>◌ (storage.index_transaction tx.hash block_hash (i % 2 ^ 32))
        (index_transactions block_hash (i + 1) rest)

  -- the writes: the index entry by entry, then the batch
  unfoldable pub write_block : Block → StorageBatch → Action S LedgerError Unit
  write_block block ops =
      Actions.with_error storage_error (
        Actions.◌>>◌ (index_transactions block.hash 0 block.transactions) (storage.apply_batch ops))

  -- what follows once the chain state has been advanced
  unfoldable pub finish_block : Block → StorageBatch → Action (LedgerState S) LedgerError Unit
  finish_block block ops w = elim (chain_state_put b w.chain_state) [
    | err e ↦ (err e, w)
    | ok state_put ↦
        (let (r, s') = write_block block (ops ++ state_put) w.storage in
          (r, record w { storage = s' }))
  ]

  -- `Ledger::apply_block`
  unfoldable pub apply_block : Block → Action (LedgerState S) LedgerError Unit
  apply_block block w =
      let (r, s') = apply_transactions storage engine b block.transactions [] [] w.storage in
      elim r [
        | err e ↦ (err e, record w { storage = s' })
        | ok (accounts, deletes) ↦ elim (account_puts b accounts) [
          | err e ↦ (err e, record w { storage = s' })
          | ok puts ↦
              finish_block block (deletes ++ puts)
                (record { storage = s'; chain_state = advance block w.chain_state })
        ]
      ]
