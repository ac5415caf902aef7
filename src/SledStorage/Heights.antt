-- ===== src/SledStorage/Heights.antt =====
-- The keys of the height index, `format!("height:{:0>20}")`, and blocks in `SledStorage`
-- (src/storage.rs).
use Prim.Native.Nat.{Ordering}
use native.Mathlib.Nat.{pow-suc}
use baa_ls.Prelude.{
  ℕ, zero, suc, ◌+◌, ◌/◌, ◌%◌, ◌^◌, ◌<◌, ◌≡◌, ◌≢◌, refl, sym, ◌∙◌, ap, inl, inr, false, ◌==◌, some,
  [], ◌∷◌, Bytes, bytes_eq, bytes_eq_sound, bytes_eq_refl, bytes_cmp, bytes_cmp_refl,
  bytes_cmp-append_lt, bytes_cmp-append_left, ok, arith, Bool-cases, ==_iff, if◌then◌else◌, length,
  length-append, Bool-eq_of_iff, ◌⊎◌,
}
use baa_ls.Types.{Hash, Block, Bincode}
use baa_ls.SledStorage.{Sled, Hex, SledStorage, decimal_padded, height_prefix, height_key}
use baa_ls.SledStorage.Laws.{SledLaws, Works, RoundTrips}
use baa_ls.SledStorage.Operations.{put_block, get_block, get_block_by_height}
use baa_ls.SledStorage.RoundTrip.{insert_returns, get-insert}

pub length-decimal_padded : (w n : ℕ) → length (decimal_padded w n) ≡ w
unfolding decimal_padded
length-decimal_padded zero n = refl
length-decimal_padded (suc w) n =
    length-append (decimal_padded w (n / 10)) ((b'0' + n % 10) ∷ [])
    ∙ omega (arith, length-decimal_padded w (n / 10))

last_digit :
    (m n : ℕ)
    → m % 10 < n % 10
    → bytes_cmp ((b'0' + m % 10) ∷ []) ((b'0' + n % 10) ∷ []) ≡ Ordering.lt
unfolding bytes_cmp
last_digit m n h = ground arith

-- Padded decimals are ordered as the numbers are.
pub decimal_padded-lt :
    (w m n : ℕ)
    → m < n
    → n < 10 ^ w
    → bytes_cmp (decimal_padded w m) (decimal_padded w n) ≡ Ordering.lt
unfolding decimal_padded
decimal_padded-lt zero m n h k = absurd (omega arith)
decimal_padded-lt (suc w) m n h k = elim (split (m / 10) (n / 10) (omega arith)) [
  | inl less ↦
      bytes_cmp-append_lt (decimal_padded w (m / 10)) (decimal_padded w (n / 10)) _ _
        (length-decimal_padded w (m / 10) ∙ sym (length-decimal_padded w (n / 10)))
        (decimal_padded-lt w (m / 10) (n / 10) less (omega (arith, pow-suc 10 w)))
  | inr same ↦
      rw same (bytes_cmp-append_left (decimal_padded w (n / 10)) _ _ ∙ last_digit m n (omega arith))
]
  where
    split : (a c : ℕ) → a < suc c → (a < c) ⊎ (a ≡ c)
    split a c h = omega arith

pub height_key-lt :
    (m n : ℕ) → m < n → n < 10 ^ 20 → bytes_cmp (height_key m) (height_key n) ≡ Ordering.lt
unfolding height_key
height_key-lt m n h k = bytes_cmp-append_left height_prefix _ _ ∙ decimal_padded-lt 20 m n h k

pub height_key-injective :
    (m n : ℕ) → m < 10 ^ 20 → n < 10 ^ 20 → height_key m ≡ height_key n → m ≡ n
height_key-injective m n hm hn e = elim (compare_lem m n) [
  | inl less ↦
      cc (height_key-lt m n less hn, ap (bytes_cmp (height_key m)) e, bytes_cmp_refl (height_key m))
  | inr (inl same) ↦ same
  | inr (inr more) ↦ cc (
    height_key-lt n m more hm,
    ap (bytes_cmp (height_key n)) (sym e),
    bytes_cmp_refl (height_key n),
  )
]
  where
    compare_lem : (a c : ℕ) → (a < c) ⊎ ((a ≡ c) ⊎ (c < a))
    compare_lem a c = omega arith

pub height_key-bytes_eq :
    (m n : ℕ) → m < 10 ^ 20 → n < 10 ^ 20 → bytes_eq (height_key m) (height_key n) ≡ (m == n)
height_key-bytes_eq m n hm hn =
    Bool-eq_of_iff _ _
      (λ same. (==_iff m n).1 (height_key-injective m n hm hn (bytes_eq_sound _ _ same)))
      (λ same. rw ((==_iff m n).0 same) (bytes_eq_refl (height_key n)))

-- A hash is longer than a height key.
pub hash-ne-height_key :
    (h : Hash) (n : ℕ)
    → length h ≡ 32
    → (bytes_eq h (height_key n) ≡ false) × (bytes_eq (height_key n) h ≡ false)
unfolding height_key
hash-ne-height_key h n size =
    let l = length-append height_prefix (decimal_padded 20 n) in
    let d = length-decimal_padded 20 n in
    (
      not_eq h (height_key n) (λ e. omega (arith, ap (length {A = ℕ}) e)),
      not_eq (height_key n) h (λ e. omega (arith, ap (length {A = ℕ}) e)),
    )
  where
    not_eq : (x y : Bytes) → x ≢ y → bytes_eq x y ≡ false
    not_eq x y ne = elim (Bool-cases (bytes_eq x y)) [
      | inl same ↦ absurd (ne (bytes_eq_sound x y same))
      | inr other ↦ other
    ]

module _ {Tree : Type 0} (sled : Sled Tree) (laws : SledLaws sled) (works : Works sled)
    (b : Bincode) (hex : Hex) where
  -- the two inserts, and what a read finds after them
  pub insert_both :
      (t : Tree) (j k v : Bytes)
      → (t' : Tree) × (t'' : Tree) × (sled.insert t j v ≡ some t')
        × (sled.insert t' k v ≡ some t'')
        × ((q : Bytes)
            → sled.get t'' q ≡ (
                if bytes_eq k q
                then some (some v)
                else if bytes_eq j q
                then some (some v)
                else sled.get t q))
  insert_both t j k v =
      let (t', e) = insert_returns sled laws works t j v in
      let (t'', f) = insert_returns sled laws works t' k v in
      (
        t',
        t'',
        e,
        f,
        λ q.
            get-insert sled laws works t' k v t'' q f
            ∙ ap (λ r. if bytes_eq k q then some (some v) else r)
                (get-insert sled laws works t j v t' q e),
      )

  -- On a working disk, after put_block of a block that bincode reads back, get_block and
  -- get_block_by_height find that block at its hash and its height, and anything else as before,
  -- for 32-byte hashes and u64 heights.
  pub get_block-put_block :
      (block : Block) (hash : Hash) (height : ℕ) (s : SledStorage Tree)
      → RoundTrips b.block_codec block
      → length block.hash ≡ 32
      → length hash ≡ 32
      → block.index < 2 ^ 64
      → height < 2 ^ 64
      → let (r, s') = put_block sled b hex block s in
        (r ≡ ok tt)
        × (get_block sled b hex hash s'
            ≡ (if bytes_eq block.hash hash then ok (some block) else get_block sled b hex hash s))
        × (get_block_by_height sled b hex height s' ≡ (
            if block.index == height
            then ok (some block)
            else get_block_by_height sled b hex height s))
  unfolding put_block get_block get_block_by_height
  get_block-put_block block hash height s trip hs hq hi hh =
      let (t', t'', e, f, found) =
        insert_both s.blocks_tree block.hash (height_key block.index) trip.encoded in
      let (n1, n2) = hash-ne-height_key hash block.index hq in
      let (n3, n4) = hash-ne-height_key block.hash height hs in
      ground (
        arith,
        trip.serialize_lem,
        trip.deserialize_lem,
        e,
        f,
        found hash,
        found (height_key height),
        n1,
        n2,
        n3,
        n4,
        height_key-bytes_eq block.index height (omega arith) (omega arith),
      )
