-- ===== src/Ledger/Validity.antt =====
-- What `Ledger::validate_block` (src/ledger.rs) accepts.
use baa_ls.Prelude.{
  ◌<◌, ◌≡◌, ◌↔◌, refl, ◌⊎◌, inl, inr, ltb, true, none, some, List, [], ◌∷◌, bytes_eq_iff,
  bytes_eq_refl, ok, arith, All, Result-cases, Bool-cases,
}
use baa_ls.Types.{Block, Transaction, ChainState, Crypto, Bincode, block_hash, verify_signature}
use baa_ls.Storage.{Storage}
use baa_ls.Consensus.{next_u64}
use baa_ls.Ledger.Validation.{validate_block, check_timestamp, check_signatures}

module _ {S : Type 0} (storage : Storage S) (c : Crypto) (b : Bincode) where
  -- The stored parent is older, where the block is not numbered zero.
  abbrev pub HasOlderParent : Block → S → Type 0
  HasOlderParent block s =
      (block.index ≡ 0)
      ⊎ ((parent : Block) × (storage.get_block block.prev_hash s ≡ ok (some parent))
          × (parent.timestamp < block.timestamp))

  abbrev pub IsVerified : Transaction → Type 0
  IsVerified tx = verify_signature c b tx ≡ ok true

  -- The block is the next one of a chain in the state `current`.
  pub record IsNextBlock (block : Block) (current : ChainState) (s : S) : Type 0 where
    pub index_lem : block.index ≡ next_u64 current.latest_block_index
    pub prev_hash_lem : block.prev_hash ≡ current.latest_block_hash
    pub hash_lem : block_hash c b block ≡ ok block.hash
    pub parent_lem : HasOlderParent block s
    pub signatures_lem : All IsVerified block.transactions

  check_signatures_iff :
      (txs : List Transaction) → (check_signatures storage c b txs ≡ ok tt) ↔ All IsVerified txs
  unfolding check_signatures
  check_signatures_iff [] = (λ h. tt, λ h. refl)
  check_signatures_iff (tx ∷ rest) =
      let ih = check_signatures_iff rest in (λ h. ground (arith, ih), λ h. ground (arith, ih))

  timestamp_forward :
      (block : Block) (s : S) → check_timestamp storage c b block s ≡ ok tt → HasOlderParent block s
  unfolding check_timestamp
  timestamp_forward block s h = elim (Result-cases (storage.get_block block.prev_hash s)) [
    | inl (some parent, e) ↦ elim (Bool-cases (ltb 0 block.index)) [
      | inl later ↦ inr (parent, e, ground arith)
      | inr first ↦ inl (ground arith)
    ]
    | inl (none, e) ↦ inl (ground arith)
    | inr (f, e) ↦ inl (ground arith)
  ]

  timestamp_back :
      (block : Block) (s : S) → HasOlderParent block s → check_timestamp storage c b block s ≡ ok tt
  unfolding check_timestamp
  timestamp_back block s (inl first) = ground arith
  timestamp_back block s (inr (parent, e, older)) = ground arith

  check_timestamp_iff :
      (block : Block) (s : S)
      → (check_timestamp storage c b block s ≡ ok tt) ↔ HasOlderParent block s
  check_timestamp_iff block s = (λ h. timestamp_forward block s h, λ h. timestamp_back block s h)

  validate_forward :
      (block : Block) (current : ChainState) (s : S)
      → validate_block storage c b block current s ≡ ok tt
      → IsNextBlock block current s
  unfolding validate_block
  validate_forward block current s h = elim (Result-cases (block_hash c b block)) [
    | inl (calculated, e) ↦ record {
      index_lem = ground arith;
      prev_hash_lem = ground (arith, bytes_eq_iff block.prev_hash current.latest_block_hash);
      hash_lem = ground (arith, bytes_eq_iff calculated block.hash);
      parent_lem = timestamp_forward block s (ground arith);
      signatures_lem = (check_signatures_iff block.transactions).0 (ground arith);
    }
    | inr (f, e) ↦ absurd (ground arith)
  ]

  validate_back :
      (block : Block) (current : ChainState) (s : S)
      → IsNextBlock block current s
      → validate_block storage c b block current s ≡ ok tt
  unfolding validate_block
  validate_back block current s h = ground (
    arith,
    bytes_eq_iff block.prev_hash current.latest_block_hash,
    bytes_eq_refl block.hash,
    timestamp_back block s h.parent_lem,
    (check_signatures_iff block.transactions).1 h.signatures_lem,
  )

  -- Validate_block accepts a block exactly if its index and previous hash follow the chain state,
  -- its hash is its own, its stored parent is older (unless its index is 0), and every transaction
  -- verifies.
  pub validate_block_iff :
      (block : Block) (current : ChainState) (s : S)
      → (validate_block storage c b block current s ≡ ok tt) ↔ IsNextBlock block current s
  validate_block_iff block current s =
      (λ h. validate_forward block current s h, λ h. validate_back block current s h)
