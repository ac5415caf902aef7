-- ===== src/SledStorage/Refinement.antt =====
-- `SledStorage` (src/storage.rs) against its specification.
pub mod Views
pub mod Reads
pub mod Values
pub mod Blocks
use baa_ls.Prelude.{
  ℕ, ◌^◌, ◌<◌, ◌≡◌, refl, sym, ap, ◌∙◌, subst, ◌==◌, ◌&&◌, if◌then◌else◌, Option, none, some, List,
  [], ◌∷◌, Bytes, bytes_eq, bytes_eq_refl, length, Bool, true, false, All, Result, ok, err, arith,
  inl, inr, Option-cases,
}
use baa_ls.Types.{
  Hash, PublicKey, ContractId, Transaction, Block, ChainState, Account, Codec, Bincode,
}
use baa_ls.Storage.{StorageError, serialization_error, StorageBatch, Storage}
use baa_ls.SledStorage.{
  Sled, Hex, SledStorage, or_database_error, decode_entry, height_key, chain_state_key, sled_batch,
}
use baa_ls.SledStorage.Laws.{SledLaws, Works, HexLaws}
use baa_ls.SledStorage.Operations.{
  read_entry, get_block, get_block_by_height, get_transaction, get_account, get_chain_state,
  get_contract_code, contract_storage_read, put_block, put_transaction, remove_pending_transaction,
  index_transaction, index_key, put_account, delete_account, put_chain_state, put_contract_code,
  contract_key, contract_storage_write, contract_storage_remove, apply_batch, sled_storage,
}
use baa_ls.SledStorage.RoundTrip.{
  get-insert, get-remove, insert_returns, remove_returns, batch_returns,
}
use baa_ls.SledStorage.Heights.{insert_both, height_key-bytes_eq, hash-ne-height_key}
use baa_ls.SledStorage.ContractStorage.{contract_key-bytes_eq}
use baa_ls.SledStorage.Specification
use baa_ls.SledStorage.Specification.{
  Write, IsSized, Answer, View, specified, specified_run, perform, run, Represents, Agrees,
}
use baa_ls.SledStorage.Refinement.Views.{
  with_blocks, with_transactions, with_accounts, with_chain_state, with_contract_code,
  with_contract_values, with_unread,
}
use baa_ls.SledStorage.Refinement.Reads.{
  agree, else_eq, store, Refined, read-insert, raw-insert, raw-remove, read-remove,
}
use baa_ls.SledStorage.Refinement.Values.{
  put_account-Refined, put_transaction-Refined, put_chain_state-Refined, delete_account-Refined,
  put_contract_code-Refined,
}
use baa_ls.SledStorage.Refinement.Blocks.{
  contract_storage_write-Refined, contract_storage_remove-Refined, put_block-Refined,
}

module _ {Tree : Type 0} (sled : Sled Tree) (laws : SledLaws sled) (works : Works sled)
    (b : Bincode) (hex : Hex) (hex_laws : HexLaws hex) where
  unread-Refined :
      (w : Write) (v : View) (s : SledStorage Tree) (db mempool tx_by_block : Tree)
      → perform (store sled b hex) w s
        ≡ (ok tt, record s { db = db; mempool_tree = mempool; tx_by_block_tree = tx_by_block })
      → specified b w v ≡ (ok tt, v)
      → Represents (store sled b hex) v s
      → Refined sled b hex w v s
  unread-Refined w v s db mempool tx_by_block e f h =
      agree (store sled b hex)
        {p' = (ok tt, record s { db = db; mempool_tree = mempool; tx_by_block_tree = tx_by_block })}
        {q' = (ok tt, v)} e f (refl, with_unread sled b hex v s db mempool tx_by_block h)

  -- one call
  perform-Refined :
      (w : Write) (v : View) (s : SledStorage Tree)
      → IsSized w
      → Represents (store sled b hex) v s
      → Refined sled b hex w v s
  unfolding specified remove_pending_transaction index_transaction apply_batch
  perform-Refined (Specification.put_block x) v s sized h =
      put_block-Refined sled laws works b hex hex_laws x sized v s h
  perform-Refined (Specification.put_transaction tx) v s sized h =
      put_transaction-Refined sled laws works b hex hex_laws tx v s h
  perform-Refined (Specification.put_account address x) v s sized h =
      put_account-Refined sled laws works b hex hex_laws address x v s h
  perform-Refined (Specification.delete_account address) v s sized h =
      delete_account-Refined sled laws works b hex hex_laws address v s h
  perform-Refined (Specification.put_chain_state state) v s sized h =
      put_chain_state-Refined sled laws works b hex hex_laws state v s h
  perform-Refined (Specification.put_contract_code id code) v s sized h =
      put_contract_code-Refined sled laws works b hex hex_laws id code v s h
  perform-Refined (Specification.contract_storage_write id key value) v s sized h =
      contract_storage_write-Refined sled laws works b hex hex_laws id key value sized v s h
  perform-Refined (Specification.contract_storage_remove id key) v s sized h =
      contract_storage_remove-Refined sled laws works b hex hex_laws id key sized v s h
  perform-Refined (Specification.remove_pending_transaction hash) v s sized h =
      let (t', f) = remove_returns sled laws works s.mempool_tree hash in
      unread-Refined (Specification.remove_pending_transaction hash) v s s.db t' s.tx_by_block_tree
        (ground arith) refl h
  perform-Refined (Specification.index_transaction tx_hash block_hash i) v s sized h =
      let (t', f) =
        insert_returns sled laws works s.tx_by_block_tree
          (index_key sled b hex tx_hash block_hash i) tx_hash in
      unread-Refined (Specification.index_transaction tx_hash block_hash i) v s s.db s.mempool_tree
        t' (ground arith) refl h
  perform-Refined (Specification.apply_batch ops) v s sized h =
      let (t', f) = batch_returns sled laws works s.db (sled_batch ops) in
      unread-Refined (Specification.apply_batch ops) v s t' s.mempool_tree s.tx_by_block_tree
        (ground arith) refl h

  -- On a working disk and with an injective hex of two digits a byte, any sequence of calls of
  -- SledStorage's writing methods, with 32-byte hashes and contract ids and u64 indices, returns
  -- the results that the abstract store of Specification returns, and every read of blocks,
  -- transactions, accounts, the chain state, contract code and contract storage answers as the
  -- abstract store does, at 32-byte block hashes and contract ids and u64 heights, where it did so
  -- before.
  pub run_refined :
      (ws : List Write) (v : View) (s : SledStorage Tree)
      → All IsSized ws
      → Represents (store sled b hex) v s
      → ((run (store sled b hex) ws s).0 ≡ (specified_run b ws v).0)
        × Represents (store sled b hex) (specified_run b ws v).1 (run (store sled b hex) ws s).1
  unfolding run specified_run
  run_refined [] v s sized h = (refl, h)
  run_refined (w ∷ ws) v s sized h =
      let (same, next) = perform-Refined w v s sized.0 h in
      let (results, last) =
        run_refined ws (specified b w v).1 (perform (store sled b hex) w s).1 sized.1 next in
      (cons_eq same results, last)
    where
      cons_eq : {A : Type 0} {x y : A} {xs ys : List A} → x ≡ y → xs ≡ ys → x ∷ xs ≡ y ∷ ys
      cons_eq p q = cc
