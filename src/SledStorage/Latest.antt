-- ===== src/SledStorage/Latest.antt =====
-- `get_latest_block` of `SledStorage` (src/storage.rs).
use Prim.Native.Nat.{Ordering}
use baa_ls.Prelude.{
  ℕ, ◌^◌, ◌<◌, ◌≤◌, ◌≡◌, refl, ◌∙◌, ap, inl, inr, map, none, some, List, [], ◌∷◌, ◌++◌, Bytes,
  bytes_cmp, bytes_cmp_refl, bytes_cmp_trans, ok, arith, Option-cases, ◌⊎◌,
}
use baa_ls.Types.{Block, Bincode}
use baa_ls.SledStorage.{
  Sled, Hex, SledStorage, decimal_padded, height_prefix, height_key, last_entry,
}
use baa_ls.SledStorage.Laws.{SledLaws, Works, ScanLaws, Ascends, Listed}
use baa_ls.SledStorage.Operations.{get_latest_block, get_block_by_height}
use baa_ls.SledStorage.RoundTrip.{get-eq-find}
use baa_ls.SledStorage.Heights.{height_key-lt}

-- `e` is the entry with the greatest key.
pub record IsGreatest (e : Bytes × Bytes) (l : List (Bytes × Bytes)) : Type 0 where
  pub listed : Listed e l
  pub greatest : (x : Bytes × Bytes) → Listed x l → (x ≡ e) ⊎ (bytes_cmp x.0 e.0 ≡ Ordering.lt)

abbrev Last : List (Bytes × Bytes) → Type 0
Last l =
    (l ≡ []) ⊎ ((e : Bytes × Bytes) × (last_entry (map some l) ≡ some (some e)) × IsGreatest e l)

below_last :
    (x e f l : Bytes × Bytes)
    → x ≡ e
    → bytes_cmp e.0 f.0 ≡ Ordering.lt
    → (f ≡ l) ⊎ (bytes_cmp f.0 l.0 ≡ Ordering.lt)
    → bytes_cmp x.0 l.0 ≡ Ordering.lt
below_last x e f l p h (inl q) = rw (p, ← q) h
below_last x e f l p h (inr q) = rw p (bytes_cmp_trans e.0 f.0 l.0 h q)

Ascends-Last : (l : List (Bytes × Bytes)) → Ascends l → Last l
unfolding last_entry
Ascends-Last [] h = inl refl
Ascends-Last (e ∷ []) h = inr (
  e,
  refl,
  record { listed = inl refl; greatest = λ x. elim [ inl p ↦ inl p | inr q ↦ absurd q ] },
)
Ascends-Last (e ∷ f ∷ rest) h = elim (Ascends-Last (f ∷ rest) h.1) [
  | inl none_left ↦ absurd (cc none_left)
  | inr (l, p, g) ↦ inr (
    l,
    p,
    record {
      listed = inr g.listed;
      greatest = λ x. elim [
        | inl q ↦ inr (below_last x e f l q h.0 (g.greatest f (inl refl)))
        | inr q ↦ g.greatest x q
      ];
    },
  )
]

key_order : (m n : ℕ) → m < 10 ^ 20 → bytes_cmp (height_key m) (height_key n) ≡ Ordering.lt → m ≤ n
key_order m n fits h = elim (order m n) [
  | inl le ↦ le
  | inr gt ↦ cc (bytes_cmp_trans _ _ _ h (height_key-lt n m gt fits), bytes_cmp_refl (height_key m))
]
  where
    order : (a c : ℕ) → (a ≤ c) ⊎ (c < a)
    order a c = omega arith

module _ {Tree : Type 0} (sled : Sled Tree) (laws : SledLaws sled) (b : Bincode) where
  -- Every entry under a key that starts with `height:` holds a block, under the key of its height.
  pub record IsIndexed (t : Tree) : Type 0 where
    pub indexed :
        (rest encoded : Bytes)
        → laws.find t (height_prefix ++ rest) ≡ some encoded
        → (block : Block) × (b.block_codec.deserialize encoded ≡ some block)
          × (height_prefix ++ rest ≡ height_key block.index)
          × (block.index < 10 ^ 20)

module _ {Tree : Type 0} (sled : Sled Tree) (laws : SledLaws sled) (works : Works sled)
    (scans : ScanLaws sled laws.find) (b : Bincode) (hex : Hex) where
  by_height_some :
      (s : SledStorage Tree) (height : ℕ) (encoded : Bytes) (block : Block)
      → laws.find s.blocks_tree (height_key height) ≡ some encoded
      → b.block_codec.deserialize encoded ≡ some block
      → get_block_by_height sled b hex height s ≡ ok (some block)
  unfolding get_block_by_height
  by_height_some s height encoded block e d =
      ground (arith, get-eq-find sled laws works s.blocks_tree (height_key height))

  by_height_none :
      (s : SledStorage Tree) (height : ℕ)
      → laws.find s.blocks_tree (height_key height) ≡ none
      → get_block_by_height sled b hex height s ≡ ok none
  unfolding get_block_by_height
  by_height_none s height e =
      ground (arith, get-eq-find sled laws works s.blocks_tree (height_key height))

  by_height_found :
      (s : SledStorage Tree) (height : ℕ) (block : Block)
      → get_block_by_height sled b hex height s ≡ ok (some block)
      → (encoded : Bytes) × (laws.find s.blocks_tree (height_key height) ≡ some encoded)
        × (b.block_codec.deserialize encoded ≡ some block)
  unfolding get_block_by_height
  by_height_found s height block e =
      elim (Option-cases (laws.find s.blocks_tree (height_key height))) [
        | inl missing ↦
            absurd (ground (arith, get-eq-find sled laws works s.blocks_tree (height_key height)))
        | inr (encoded, found) ↦ (
          encoded,
          found,
          ground (arith, get-eq-find sled laws works s.blocks_tree (height_key height)),
        )
      ]

  latest_some :
      (s : SledStorage Tree) (e : Bytes × Bytes) (block : Block)
      → last_entry (map some (scans.entries s.blocks_tree height_prefix)) ≡ some (some e)
      → b.block_codec.deserialize e.1 ≡ some block
      → get_latest_block sled b hex s ≡ ok (some block)
  unfolding get_latest_block
  latest_some s e block p d = ground (arith, scans.scan_prefix_lem s.blocks_tree height_prefix)

  latest_none :
      (s : SledStorage Tree)
      → scans.entries s.blocks_tree height_prefix ≡ []
      → get_latest_block sled b hex s ≡ ok none
  unfolding get_latest_block
  latest_none s p = ground (arith, scans.scan_prefix_lem s.blocks_tree height_prefix)

  Listed-height_key :
      (s : SledStorage Tree) (height : ℕ) (encoded : Bytes)
      → laws.find s.blocks_tree (height_key height) ≡ some encoded
      → Listed (height_key height, encoded) (scans.entries s.blocks_tree height_prefix)
  unfolding height_key
  Listed-height_key s height encoded e =
      scans.complete s.blocks_tree height_prefix (decimal_padded 20 height) encoded e

  decoded_key :
      (s : SledStorage Tree)
      → IsIndexed sled laws b s.blocks_tree
      → (height : ℕ) (encoded : Bytes) (block : Block)
      → laws.find s.blocks_tree (height_key height) ≡ some encoded
      → b.block_codec.deserialize encoded ≡ some block
      → (height_key height ≡ height_key block.index) × (block.index < 10 ^ 20)
  unfolding height_key
  decoded_key s h height encoded block e d =
      let (found, d', key, fits) = h.indexed (decimal_padded 20 height) encoded e in
      let same : found ≡ block = ground arith in
      (
        key ∙ ap (λ (x : Block). height_key x.index) same,
        rw (← ap {A = Block} (λ x. x.index) same) fits,
      )

  abbrev pub NoBlocks : SledStorage Tree → Type 0
  NoBlocks s =
      (get_latest_block sled b hex s ≡ ok none)
      × ((height : ℕ) → get_block_by_height sled b hex height s ≡ ok none)

  abbrev pub Highest : SledStorage Tree → Block → Type 0
  Highest s block =
      (get_latest_block sled b hex s ≡ ok (some block))
      × (get_block_by_height sled b hex block.index s ≡ ok (some block))
      × ((height : ℕ) (other : Block)
          → get_block_by_height sled b hex height s ≡ ok (some other)
          → other.index ≤ block.index)

  below_greatest :
      (s : SledStorage Tree)
      → IsIndexed sled laws b s.blocks_tree
      → (e : Bytes × Bytes) (block : Block)
      → IsGreatest e (scans.entries s.blocks_tree height_prefix)
      → b.block_codec.deserialize e.1 ≡ some block
      → e.0 ≡ height_key block.index
      → (height : ℕ) (other : Block) → get_block_by_height sled b hex height s ≡ ok (some other)
      → other.index ≤ block.index
  below_greatest s h e block g d k height other got =
      let (encoded, found, dec) = by_height_found s height other got in
      let (key, fits) = decoded_key s h height encoded other found dec in
      elim (g.greatest (height_key height, encoded) (Listed-height_key s height encoded found)) [
        | inl same ↦ omega (
          arith,
          ap {A = Block} (λ x. x.index)
              (decoded_alike encoded e.1 (ap {A = Bytes × Bytes} (λ x. x.1) same) other block dec
                d),
        )
        | inr less ↦ key_order other.index block.index fits (rw (← key, ← k) less)
      ]
    where
      decoded_alike :
          (x y : Bytes)
          → x ≡ y
          → (p q : Block) → b.block_codec.deserialize x ≡ some p
          → b.block_codec.deserialize y ≡ some q
          → p ≡ q
      decoded_alike x y same p q dp dq = cc

  IsGreatest-Highest :
      (s : SledStorage Tree)
      → IsIndexed sled laws b s.blocks_tree
      → (e : Bytes × Bytes)
      → last_entry (map some (scans.entries s.blocks_tree height_prefix)) ≡ some (some e)
      → IsGreatest e (scans.entries s.blocks_tree height_prefix)
      → (block : Block) × Highest s block
  IsGreatest-Highest s h (k, v) p g =
      let (found, (rest, split)) = scans.sound s.blocks_tree height_prefix k v g.listed in
      let (block, d, key, fits) = h.indexed rest v (rw split at found) in
      (
        block,
        (
          latest_some s (k, v) block p d,
          by_height_some s block.index v block (rw (split ∙ key) at found) d,
          below_greatest s h (k, v) block g d (split ∙ key),
        ),
      )

  -- On a working disk whose scans are ordered and whose height entries each hold a block under the
  -- key of its height, either get_latest_block and get_block_by_height at every height find
  -- nothing, or get_latest_block returns a block that is found at its own height and that no block
  -- found at any height exceeds.
  pub get_latest_block-Highest :
      (s : SledStorage Tree)
      → IsIndexed sled laws b s.blocks_tree
      → NoBlocks s ⊎ ((block : Block) × Highest s block)
  get_latest_block-Highest s h =
      elim (Ascends-Last (scans.entries s.blocks_tree height_prefix)
        (scans.ascends s.blocks_tree height_prefix)) [
          | inl empty ↦ inl (
            latest_none s empty,
            λ height. elim (Option-cases (laws.find s.blocks_tree (height_key height))) [
              | inl missing ↦ by_height_none s height missing
              | inr (v, found) ↦ absurd (rw empty at (Listed-height_key s height v found))
            ],
          )
          | inr (e, p, g) ↦ inr (IsGreatest-Highest s h e p g)
        ]
