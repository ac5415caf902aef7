-- ===== src/SledStorage/Pending.antt =====
-- `get_pending_transactions` and `remove_pending_transaction` of `SledStorage` (src/storage.rs).
use baa_ls.Prelude.{
  ◌≡◌, ◌∙◌, List, [], ◌∷◌, All, ◌≢◌, refl, inl, inr, some, ◌++◌, Bytes, codes, bytes_eq,
  bytes_eq_sound, Bool-cases, Option-cases, arith,
}
use baa_ls.Types.{Hash, Bincode}
use baa_ls.SledStorage.{Sled, Hex, SledStorage}
use baa_ls.SledStorage.Laws.{SledLaws, ScanLaws}
use baa_ls.SledStorage.Specification.{Write, perform, run}
use baa_ls.SledStorage.Operations.{
  sled_storage, put_block, put_transaction, index_transaction, put_account, delete_account,
  put_chain_state, put_contract_code, contract_storage_write, contract_storage_remove, apply_batch,
  get_pending_transactions, remove_pending_transaction,
}
use baa_ls.SledStorage.Scans.{same_scans}

-- A call that removes a pending transaction does not do so by a hash that starts with the prefix.
abbrev pub IsHashRemoval : Write → Type 0
IsHashRemoval (Write.remove_pending_transaction tx_hash) =
    (rest : Bytes) → tx_hash ≢ codes "pending:" ++ rest
IsHashRemoval _ = Unit

module _ {Tree : Type 0} (sled : Sled Tree) (laws : SledLaws sled) (scans : ScanLaws sled laws.find)
    (b : Bincode) (hex : Hex) where
  find-removed :
      (t t' : Tree) (tx_hash rest : Bytes)
      → ((rest : Bytes) → tx_hash ≢ codes "pending:" ++ rest)
      → sled.remove t tx_hash ≡ some t'
      → laws.find t' (codes "pending:" ++ rest) ≡ laws.find t (codes "pending:" ++ rest)
  find-removed t t' tx_hash rest other removed =
      elim (Bool-cases (bytes_eq tx_hash (codes "pending:" ++ rest))) [
        | inl same ↦ absurd (other rest (bytes_eq_sound tx_hash (codes "pending:" ++ rest) same))
        | inr differs ↦
            ground (arith, laws.remove_lem t tx_hash t' (codes "pending:" ++ rest) removed)
      ]

  get_pending_transactions-remove_pending_transaction :
      (tx_hash : Hash) (s : SledStorage Tree)
      → ((rest : Bytes) → tx_hash ≢ codes "pending:" ++ rest)
      → get_pending_transactions sled b hex (remove_pending_transaction sled b hex tx_hash s).1
        ≡ get_pending_transactions sled b hex s
  unfolding get_pending_transactions remove_pending_transaction
  get_pending_transactions-remove_pending_transaction tx_hash s other =
      elim (Option-cases (sled.remove s.mempool_tree tx_hash)) [
        | inl fails ↦ ground arith
        | inr (t, removed) ↦ ground (
          arith,
          same_scans sled laws scans t s.mempool_tree (codes "pending:")
              (λ rest. find-removed s.mempool_tree t tx_hash rest other removed),
        )
      ]

  perform_keeps :
      (w : Write) (s : SledStorage Tree)
      → IsHashRemoval w
      → get_pending_transactions sled b hex (perform (sled_storage sled b hex) w s).1
        ≡ get_pending_transactions sled b hex s
  unfolding get_pending_transactions put_block put_transaction index_transaction put_account
      delete_account put_chain_state put_contract_code contract_storage_write
      contract_storage_remove apply_batch
  perform_keeps (Write.put_block x) s h = ground arith
  perform_keeps (Write.put_transaction tx) s h = ground arith
  perform_keeps (Write.remove_pending_transaction hash) s h =
      get_pending_transactions-remove_pending_transaction hash s h
  perform_keeps (Write.index_transaction tx_hash block_hash i) s h = ground arith
  perform_keeps (Write.put_account address x) s h = ground arith
  perform_keeps (Write.delete_account address) s h = ground arith
  perform_keeps (Write.put_chain_state state) s h = ground arith
  perform_keeps (Write.put_contract_code id code) s h = ground arith
  perform_keeps (Write.contract_storage_write id key value) s h = ground arith
  perform_keeps (Write.contract_storage_remove id key) s h = ground arith
  perform_keeps (Write.apply_batch ops) s h = ground arith

  -- Over sled trees whose scans read each entry under a prefix in the order of the keys, no
  -- sequence of calls of SledStorage's writing methods changes what get_pending_transactions
  -- answers, where no hash that is removed starts with the bytes of the text pending:.
  pub get_pending_transactions-run :
      (ws : List Write) (s : SledStorage Tree)
      → All IsHashRemoval ws
      → get_pending_transactions sled b hex (run (sled_storage sled b hex) ws s).1
        ≡ get_pending_transactions sled b hex s
  unfolding run
  get_pending_transactions-run [] s h = refl
  get_pending_transactions-run (w ∷ ws) s h =
      get_pending_transactions-run ws (perform (sled_storage sled b hex) w s).1 h.1
      ∙ perform_keeps w s h.0
