-- ===== src/Runtime/Commit.antt =====
-- The end of `Runtime::produce_block` (src/runtime.rs), with the chain state locked for writing.
use baa_ls.Prelude.{◌≡◌, inl, inr, [], ok, returns, arith, Result-cases}
use baa_ls.Types.{Block, ChainState, Crypto, Bincode}
use baa_ls.Storage.{Storage}
use baa_ls.Contracts.{ContractEngine}
use baa_ls.Consensus.{ConsensusEngine}
use baa_ls.Ledger.{LedgerState}
use baa_ls.Ledger.Validation.{validate_block}
use baa_ls.Ledger.Validity.{IsNextBlock, validate_block_iff}
use baa_ls.Ledger.Application.{advance, apply_block}
use baa_ls.Ledger.Outcome.{apply_block_advances}
use baa_ls.Runtime.{lock, Runtime}
use baa_ls.Runtime.Calls.{commit_block}

module _ {S : Type 0} (storage : Storage S) (engine : ContractEngine S)
    (consensus : ConsensusEngine) (c : Crypto) (b : Bincode) where
  -- A committed block is returned.
  pub record IsCommitted (new_block block : Block) (current : ChainState) (w w' : Runtime S)
      : Type 0 where
    pub returned : block ≡ new_block
    pub next : IsNextBlock storage c b new_block current w.storage
    pub chain_state_lem : w'.chain_state.value ≡ advance new_block current
    pub mempool_lem : w'.mempool.value ≡ []

  -- When the end of produce_block, with the chain state locked, returns a block, that is the block
  -- it was given, it was the next block of the chain, the chain state is at it and the mempool is
  -- empty.
  pub commit_block_sound :
      (new_block block : Block) (current : ChainState) (w : Runtime S)
      → (commit_block storage engine consensus c b new_block current w).0 ≡ returns (ok block)
      → IsCommitted new_block block current w
          (commit_block storage engine consensus c b new_block current w).1
  unfolding commit_block lock
  commit_block_sound new_block block current w h =
      let start : LedgerState S = record { storage = w.storage; chain_state = current } in
      let applied = apply_block storage engine b new_block start in
      elim (Result-cases (validate_block storage c b new_block current w.storage)) [
        | inl (done, e) ↦ elim (Result-cases applied.0) [
          | inl (done', f) ↦ record {
            returned = ground arith;
            next = (validate_block_iff storage c b new_block current w.storage).0 (ground arith);
            chain_state_lem =
                ground
                  (arith, apply_block_advances storage engine b new_block start (ground arith));
            mempool_lem = ground arith;
          }
          | inr (x, f) ↦ absurd (ground arith)
        ]
        | inr (x, e) ↦ absurd (ground arith)
      ]

  pub commit_block-storage :
      (new_block block : Block) (current : ChainState) (w : Runtime S)
      → (commit_block storage engine consensus c b new_block current w).0 ≡ returns (ok block)
      → (commit_block storage engine consensus c b new_block current w).1.storage
        ≡ (apply_block storage engine b new_block
            (record { storage = w.storage; chain_state = current })).1.storage
  unfolding commit_block lock
  commit_block-storage new_block block current w h =
      let applied =
        apply_block storage engine b new_block
          (record { storage = w.storage; chain_state = current }) in
      elim (Result-cases (validate_block storage c b new_block current w.storage)) [
        | inl (done, e) ↦ elim (Result-cases applied.0) [
          | inl (done', f) ↦ ground arith
          | inr (x, f) ↦ absurd (ground arith)
        ]
        | inr (x, e) ↦ absurd (ground arith)
      ]
