-- ===== src/Ledger/Chain.antt =====
-- Sequences of blocks that `Ledger` (src/ledger.rs) validates and applies.
use baa_ls.Prelude.{
  ℕ, ◌+◌, ◌%◌, ◌^◌, ◌<◌, ◌≡◌, refl, sym, ap, subst, ◌∙◌, List, [], ◌∷◌, length, ok, arith, All,
}
use baa_ls.Types.{Hash, Block, ChainState, Crypto, Bincode, block_hash}
use baa_ls.Storage.{Storage}
use baa_ls.Contracts.{ContractEngine}
use baa_ls.Consensus.{next_u64}
use baa_ls.Ledger.{LedgerState}
use baa_ls.Ledger.Validation.{validate_block}
use baa_ls.Ledger.Validity.{IsVerified, IsNextBlock, validate_block_iff}
use baa_ls.Ledger.Application.{advance, apply_block}
use baa_ls.Ledger.Outcome.{apply_block_advances}

-- The hash and the number of the head, for blocks with the newest first.
abbrev pub head_hash : ChainState → List Block → Hash
head_hash from [] = from.latest_block_hash
head_hash from (block ∷ rest) = block.hash

abbrev pub head_index : ChainState → List Block → ℕ
head_index from [] = from.latest_block_index
head_index from (block ∷ rest) = block.index

module _ {S : Type 0} (storage : Storage S) (engine : ContractEngine S) (c : Crypto)
    (b : Bincode) where
  -- A ledger goes from `start` to another state by blocks that are validated and applied.
  pub data Grows (start : LedgerState S) : List Block → LedgerState S → Type 0 where
    starts : Grows start [] start
    extends :
        {blocks : List Block} {w : LedgerState S} (block : Block)
        → Grows start blocks w
        → validate_block storage c b block w.chain_state w.storage ≡ ok tt
        → (apply_block storage engine b block w).0 ≡ ok tt
        → Grows start (block ∷ blocks) (apply_block storage engine b block w).1

  -- Each block follows the one before it, and its hash and its signatures are right.
  abbrev pub IsLinked : ChainState → List Block → Type 0
  IsLinked from [] = Unit
  IsLinked from (block ∷ rest) =
      (block.prev_hash ≡ head_hash from rest)
      × (block.index ≡ next_u64 (head_index from rest))
      × (block_hash c b block ≡ ok block.hash)
      × All (IsVerified storage c b) block.transactions
      × IsLinked from rest

  -- The blocks are linked, and the chain state is at the newest one.
  pub record IsChain (from : ChainState) (blocks : List Block) (current : ChainState) : Type 0 where
    pub linked : IsLinked from blocks
    pub hash_lem : current.latest_block_hash ≡ head_hash from blocks
    pub index_lem : current.latest_block_index ≡ head_index from blocks

  extend-IsChain :
      (from current : ChainState) (blocks : List Block) (block : Block) (s : S)
      → IsChain from blocks current
      → IsNextBlock storage c b block current s
      → IsChain from (block ∷ blocks) (advance block current)
  unfolding advance
  extend-IsChain from current blocks block s chain next = record {
    linked = (
      next.prev_hash_lem ∙ chain.hash_lem,
      next.index_lem ∙ ap next_u64 chain.index_lem,
      next.hash_lem,
      next.signatures_lem,
      chain.linked,
    );
    hash_lem = refl;
    index_lem = refl;
  }

  -- Over any sequence of blocks of which validate_block accepts and apply_block applies each on
  -- the state that the one before it left, the blocks are a chain: each has the hash of the one
  -- before it as its previous hash, the next number, its own computed hash and verified
  -- transactions, and the chain state is at the newest.
  pub Grows-IsChain :
      {start : LedgerState S} {blocks : List Block} {w : LedgerState S}
      → Grows start blocks w
      → IsChain start.chain_state blocks w.chain_state
  Grows-IsChain starts = record { linked = tt; hash_lem = refl; index_lem = refl }
  Grows-IsChain {start} (extends {blocks} {w} block before valid applied) =
      subst (IsChain start.chain_state (block ∷ blocks))
        (sym (apply_block_advances storage engine b block w applied))
        (extend-IsChain start.chain_state w.chain_state blocks block w.storage
          (Grows-IsChain before)
          ((validate_block_iff storage c b block w.chain_state w.storage).0 valid))

  -- the number of the head counts the blocks
  pub head_index_lem :
      (from : ChainState) (blocks : List Block)
      → from.latest_block_index < 2 ^ 64
      → IsLinked from blocks
      → head_index from blocks ≡ (from.latest_block_index + length blocks) % 2 ^ 64
  head_index_lem from [] fits h = omega arith
  head_index_lem from (block ∷ rest) fits h = omega (arith, head_index_lem from rest fits h.4, h.1)
