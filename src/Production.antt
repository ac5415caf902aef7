-- ===== src/Production.antt =====
-- The engine of src/consensus.rs against the ledger of src/ledger.rs.
use baa_ls.Prelude.{◌+◌, ◌^◌, ◌<◌, ◌≡◌, refl, ◌∙◌, ap, inr, some, List, ◌∷◌, Bytes, ok, arith, All}
use baa_ls.Types.{Block, Transaction, ChainState, Crypto, Bincode, block_hash, block_hash_input}
use baa_ls.Storage.{Storage}
use baa_ls.Consensus.{PoAConsensus, unhashed, seal, generate_block}
use baa_ls.Ledger.Validation.{validate_block}
use baa_ls.Ledger.Validity.{IsVerified, validate_block_iff}

-- The hash of a block does not cover the field that holds it.
block_hash-hash :
    (c : Crypto) (b : Bincode) (block : Block) (h : Bytes)
    → block_hash c b (record block { hash = h }) ≡ block_hash c b block
unfolding block_hash block_hash_input
block_hash-hash c b block h = refl

module _ {S : Type 0} (storage : Storage S) (c : Crypto) (b : Bincode) where
  -- The head of the chain: the stored block that the chain state names.
  pub record IsHead (prev : Block) (current : ChainState) (s : S) : Type 0 where
    pub stored : storage.get_block current.latest_block_hash s ≡ ok (some prev)
    pub hash_lem : prev.hash ≡ current.latest_block_hash
    pub index_lem : prev.index ≡ current.latest_block_index
    pub timestamp_fits : prev.timestamp + 1 < 2 ^ 64

  -- From the stored head of the chain, with a timestamp of which the next one fits u64, verified
  -- pending transactions and a hash that can be computed, generate_block returns a block of
  -- exactly those transactions, and Ledger's validate_block accepts it.
  pub generate_block-validate_block :
      (poa : PoAConsensus) (prev : Block) (current : ChainState) (s : S) (tx : Transaction)
      (rest : List Transaction) (h : Bytes)
      → IsHead prev current s
      → All (IsVerified storage c b) (tx ∷ rest)
      → block_hash c b (unhashed c b (tx ∷ rest) prev) ≡ ok h
      → (block : Block) × (generate_block c b poa (tx ∷ rest) prev current ≡ ok block)
        × (block.transactions ≡ tx ∷ rest)
        × (validate_block storage c b block current s ≡ ok tt)
  unfolding generate_block seal
  generate_block-validate_block poa prev current s tx rest h head signed hashed =
      let block : Block = record (unhashed c b (tx ∷ rest) prev) { hash = h } in
      (
        block,
        ground arith,
        refl,
        (validate_block_iff storage c b block current s).1 (record {
          index_lem = ground arith;
          prev_hash_lem = head.hash_lem;
          hash_lem = block_hash-hash c b (unhashed c b (tx ∷ rest) prev) h ∙ hashed;
          parent_lem = inr (
            prev,
            ap (λ (k : Bytes). storage.get_block k s) head.hash_lem ∙ head.stored,
            omega arith,
          );
          signatures_lem = signed;
        }),
      )
