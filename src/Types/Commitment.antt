-- ===== src/Types/Commitment.antt =====
-- What `Block::calculate_hash` of src/types.rs commits to.
use baa_ls.Prelude.{
  ℕ, ◌^◌, ◌<◌, ◌≡◌, ◌≢◌, refl, sym, ◌∙◌, ◌⊎◌, inl, inr, Option, none, some, [], ◌++◌, Bytes,
  bytes_eq, bytes_eq_refl, bytes_eq_sound, to_le_bytes, from_le_bytes, length-to_le_bytes,
  from_le_bytes-to_le_bytes, ok, arith, Bool-cases, Option-cases, Result-cases, ap, length,
  append-injective,
}
use baa_ls.Types.{
  Crypto, Bincode, Codec, Block, Metadata, metadata_input, block_hash_input, block_hash,
}

-- Two different inputs with one SHA-256 hash.
abbrev pub Collision : Crypto → Type 0
Collision c = (x : Bytes) × (y : Bytes) × (x ≢ y) × (c.sha256 x ≡ c.sha256 y)

-- bincode writes a value so that its end is known from its bytes, and different values differently.
abbrev pub SelfDelimiting : {A : Type 0} → Codec A → Type 0
SelfDelimiting {A} k =
    (x y : A) (u v s t : Bytes)
    → k.serialize x ≡ some u
    → k.serialize y ≡ some v
    → u ++ s ≡ v ++ t
    → (x ≡ y) × (s ≡ t)

-- A map is written with its length first, so never as nothing.
abbrev pub NonEmpty : {A : Type 0} → Codec A → Type 0
NonEmpty {A} k = (x : A) → k.serialize x ≢ some []

abbrev pub IsU64 : ℕ → Type 0
IsU64 n = n < 2 ^ 64

-- One hash of two inputs: the inputs are equal, or they are a collision.
pub same_hash : (c : Crypto) (x y : Bytes) → c.sha256 x ≡ c.sha256 y → (x ≡ y) ⊎ Collision c
same_hash c x y e = elim (Bool-cases (bytes_eq x y)) [
  | inl same ↦ inl (bytes_eq_sound x y same)
  | inr other ↦ inr (x, y, (λ p. cc (ap (bytes_eq x) p, bytes_eq_refl x, other)), e)
]

-- A fixed-width number at the head of an input is determined by it, and so is the rest.
pub u64_head :
    (m n : ℕ) (s t : Bytes)
    → IsU64 m
    → IsU64 n
    → to_le_bytes 8 m ++ s ≡ to_le_bytes 8 n ++ t
    → (m ≡ n) × (s ≡ t)
u64_head m n s t hm hn e =
    let (heads, rests) =
      append-injective (to_le_bytes 8 m) s (to_le_bytes 8 n) t
        (cc (length-to_le_bytes 8 m, length-to_le_bytes 8 n)) e in
    (
      sym (from_le_bytes-to_le_bytes 8 m (omega arith))
          ∙ (ap from_le_bytes heads ∙ from_le_bytes-to_le_bytes 8 n (omega arith)),
      rests,
    )

module _ (b : Bincode) (delimited : SelfDelimiting b.metadata_codec)
    (nonempty : NonEmpty b.metadata_codec) where
  pub metadata_tail :
      (m n : Option Metadata) (u : Bytes)
      → metadata_input b m ≡ ok u
      → metadata_input b n ≡ ok u
      → m ≡ n
  unfolding metadata_input
  metadata_tail none none u h k = refl
  metadata_tail none (some n) u h k = absurd (nonempty n (ground arith))
  metadata_tail (some m) none u h k = absurd (nonempty m (ground arith))
  metadata_tail (some m) (some n) u h k =
      ap some ((delimited m n u u [] [] (ground arith) (ground arith) refl).0)

abbrev header : Block → Bytes → Bytes
header block rest =
    to_le_bytes 8 block.index
    ++ (to_le_bytes 8 block.timestamp ++ (block.prev_hash ++ (to_le_bytes 8 block.nonce ++ rest)))

-- What a block's input consists of, where serialization succeeds.
abbrev BlockParts : Bincode → Block → Bytes → Type 0
BlockParts b block input =
    (txns : Bytes) × (tail : Bytes) × (b.transactions_codec.serialize block.transactions
      ≡ some txns)
    × (metadata_input b block.metadata ≡ ok tail)
    × (input ≡ header block (txns ++ tail))

block_parts :
    (b : Bincode) (block : Block) (input : Bytes)
    → block_hash_input b block ≡ ok input
    → BlockParts b block input
unfolding block_hash_input
block_parts b block input h =
    elim (Option-cases (b.transactions_codec.serialize block.transactions)) [
      | inl e ↦ absurd (ground arith)
      | inr (txns, e) ↦ elim (Result-cases (metadata_input b block.metadata)) [
        | inl (tail, f) ↦ (txns, tail, e, f, ground arith)
        | inr (x, f) ↦ absurd (ground arith)
      ]
    ]

-- Fields of the header that Rust's types bound.
pub record IsBlockSized (block : Block) : Type 0 where
  pub index_fits : IsU64 block.index
  pub timestamp_fits : IsU64 block.timestamp
  pub nonce_fits : IsU64 block.nonce
  pub prev_hash_size : length block.prev_hash ≡ 32

-- All that a block holds besides its own hash.
pub record SameBlock (x y : Block) : Type 0 where
  pub same_index : x.index ≡ y.index
  pub same_timestamp : x.timestamp ≡ y.timestamp
  pub same_prev_hash : x.prev_hash ≡ y.prev_hash
  pub same_nonce : x.nonce ≡ y.nonce
  pub same_transactions : x.transactions ≡ y.transactions
  pub same_metadata : x.metadata ≡ y.metadata

module _ (b : Bincode) (transactions_delimited : SelfDelimiting b.transactions_codec)
    (metadata_delimited : SelfDelimiting b.metadata_codec)
    (nonempty : NonEmpty b.metadata_codec) where
  block_input_injective :
      (x y : Block) (u : Bytes)
      → IsBlockSized x
      → IsBlockSized y
      → block_hash_input b x ≡ ok u
      → block_hash_input b y ≡ ok u
      → SameBlock x y
  block_input_injective x y u hx hy ex ey =
      let (tx, mx, sx, ax, px) = block_parts b x u ex in
      let (ty, my, sy, ay, py) = block_parts b y u ey in
      let (i, r1) = u64_head x.index y.index _ _ hx.index_fits hy.index_fits (sym px ∙ py) in
      let (t, r2) = u64_head x.timestamp y.timestamp _ _ hx.timestamp_fits hy.timestamp_fits r1 in
      let (p, r3) =
        append-injective x.prev_hash _ y.prev_hash _ (hx.prev_hash_size ∙ sym hy.prev_hash_size)
          r2 in
      let (n, r4) = u64_head x.nonce y.nonce _ _ hx.nonce_fits hy.nonce_fits r3 in
      let (l, r5) = transactions_delimited x.transactions y.transactions tx ty mx my sx sy r4 in
      record {
        same_index = i;
        same_timestamp = t;
        same_prev_hash = p;
        same_nonce = n;
        same_transactions = l;
        same_metadata =
            metadata_tail b metadata_delimited nonempty x.metadata y.metadata my (ax ∙ ap ok r5) ay;
      }

  -- Two blocks with fields of their Rust sizes and one computed hash agree in every field but the
  -- hash field, or exhibit a SHA-256 collision, where bincode is self-delimiting and writes no
  -- metadata as nothing.
  pub block_hash_commits :
      (c : Crypto) (x y : Block) (h : Bytes)
      → IsBlockSized x
      → IsBlockSized y
      → block_hash c b x ≡ ok h
      → block_hash c b y ≡ ok h
      → SameBlock x y ⊎ Collision c
  unfolding block_hash
  block_hash_commits c x y h sx sy ex ey = elim (Result-cases (block_hash_input b x)) [
    | inl (u, eu) ↦ elim (Result-cases (block_hash_input b y)) [
      | inl (v, ev) ↦ elim (same_hash c u v (ground arith)) [
        | inl same ↦ inl (block_input_injective x y u sx sy eu (ev ∙ ap ok (sym same)))
        | inr collision ↦ inr collision
      ]
      | inr (e, ev) ↦ absurd (ground arith)
    ]
    | inr (e, eu) ↦ absurd (ground arith)
  ]
