-- ===== src/Node/Succession.antt =====
-- What follows a block of `Ledger::apply_block` (src/ledger.rs) over `SledStorage`.
use baa_ls.Prelude.{[], ◌≡◌, ◌≢◌, ap, ◌∙◌, none, inl, inr, ok}
use baa_ls.Types.{Hash, Block, ChainState, Crypto, Bincode}
use baa_ls.SledStorage.{Sled, Hex, SledStorage}
use baa_ls.SledStorage.Operations.{get_block}
use baa_ls.Ledger.{LedgerState}
use baa_ls.Ledger.Validation.{validate_block}
use baa_ls.Ledger.Validity.{HasOlderParent, validate_block_iff}
use baa_ls.Ledger.Application.{advance, apply_block}
use baa_ls.Ledger.Outcome.{apply_block_advances}
use baa_ls.Node.{node_storage, node_engine}
use baa_ls.Node.Trees.{apply_block_changes_no_account}

module _ {Tree : Type 0} (sled : Sled Tree) (c : Crypto) (b : Bincode) (hex : Hex) where
  head_is :
      (block : Block) (w : LedgerState (SledStorage Tree))
      → (apply_block (node_storage sled b hex) (node_engine sled c) b block w).0 ≡ ok tt
      → (apply_block
          (node_storage sled b hex)
          (node_engine sled c)
          b
          block
          w).1.chain_state.latest_block_hash
        ≡ block.hash
  unfolding advance
  head_is block w applied =
      ap (λ (x : ChainState). x.latest_block_hash)
        (apply_block_advances (node_storage sled b hex) (node_engine sled c) b block w applied)

  no_parent :
      (next : Block) (s : SledStorage Tree)
      → get_block sled b hex next.prev_hash s ≡ ok none
      → next.index ≢ 0
      → ¬ HasOlderParent (node_storage sled b hex) c b next s
  no_parent next s missing later (inl first) = later first
  no_parent next s missing later (inr (parent, found, older)) = cc (missing, found)

  -- Over the sled store, once apply_block has applied a block under whose hash get_block found
  -- nothing, validate_block on the store and the chain state that it left accepts no block, unless
  -- its index is 0.
  pub no_block_after_block :
      (block next : Block) (w : LedgerState (SledStorage Tree))
      → get_block sled b hex block.hash w.storage ≡ ok none
      → (apply_block (node_storage sled b hex) (node_engine sled c) b block w).0 ≡ ok tt
      → next.index ≢ 0
      → let w' = (apply_block (node_storage sled b hex) (node_engine sled c) b block w).1 in
        validate_block (node_storage sled b hex) c b next w'.chain_state w'.storage ≢ ok tt
  no_block_after_block block next w unknown applied later accepted =
      let w' = (apply_block (node_storage sled b hex) (node_engine sled c) b block w).1 in
      let valid =
        (validate_block_iff (node_storage sled b hex) c b next w'.chain_state w'.storage).0
          accepted in
      let (accounts, blocks, state) =
        apply_block_changes_no_account sled c b hex block w (record { bytes = [] }) block.hash in
      no_parent next w'.storage
        (ap (λ (h : Hash). get_block sled b hex h w'.storage)
            (valid.prev_hash_lem ∙ head_is block w applied)
          ∙ (blocks ∙ unknown))
        later valid.parent_lem
