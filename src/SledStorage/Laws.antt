-- ===== src/SledStorage/Laws.antt =====
-- What src/storage.rs relies on in sled, bincode and hex, as named hypotheses.
use baa_ls.Prelude.{
  map, ◌*◌, ◌≡◌, Option, none, some, List, [], ◌∷◌, Bytes, bytes_eq, bytes_cmp, length,
  if◌then◌else◌, ◌≢◌, ◌++◌, ◌⊎◌,
}
use Prim.Native.Nat.{Ordering}
use baa_ls.Types.{Codec}
use baa_ls.SledStorage.{SledBatch, Sled, Hex}

-- The last write of a batch to a key decides.
abbrev pub batch_find : SledBatch → Bytes → Option Bytes → Option Bytes
batch_find [] k old = old
batch_find ((j, v) ∷ batch) k old = batch_find batch k (if bytes_eq j k then v else old)

-- The keys of a scan ascend.
abbrev pub Ascends : List (Bytes × Bytes) → Type 0
Ascends [] = Unit
Ascends (e ∷ []) = Unit
Ascends (e ∷ f ∷ rest) = (bytes_cmp e.0 f.0 ≡ Ordering.lt) × Ascends (f ∷ rest)

-- A tree is a map from keys to values, `find`; a call either fails or agrees with it.
pub record SledLaws {Tree : Type 0} (sled : Sled Tree) : Type 0 where
  pub find : Tree → Bytes → Option Bytes
  pub get_lem : (t : Tree) (k : Bytes) → (sled.get t k ≡ none) ⊎ (sled.get t k ≡ some (find t k))
  pub insert_lem :
      (t : Tree) (k v : Bytes) (t' : Tree) (j : Bytes)
      → sled.insert t k v ≡ some t'
      → find t' j ≡ (if bytes_eq k j then some v else find t j)
  pub remove_lem :
      (t : Tree) (k : Bytes) (t' : Tree) (j : Bytes)
      → sled.remove t k ≡ some t'
      → find t' j ≡ (if bytes_eq k j then none else find t j)
  pub apply_batch_lem :
      (t : Tree) (batch : SledBatch) (t' : Tree) (j : Bytes)
      → sled.apply_batch t batch ≡ some t'
      → find t' j ≡ batch_find batch j (find t j)

-- No call fails: the disk works.
pub record Works {Tree : Type 0} (sled : Sled Tree) : Type 0 where
  pub get_works : (t : Tree) (k : Bytes) → sled.get t k ≢ none
  pub insert_works : (t : Tree) (k v : Bytes) → sled.insert t k v ≢ none
  pub remove_works : (t : Tree) (k : Bytes) → sled.remove t k ≢ none
  pub apply_batch_works : (t : Tree) (batch : SledBatch) → sled.apply_batch t batch ≢ none

-- `hex::encode` writes two digits for each byte, and different texts for different bytes.
pub record HexLaws (hex : Hex) : Type 0 where
  pub encode_length : (x : Bytes) → length (hex.encode x) ≡ 2 * length x
  pub encode_injective : (x y : Bytes) → hex.encode x ≡ hex.encode y → x ≡ y

-- This value comes back from its encoding.
pub record RoundTrips {A : Type 0} (c : Codec A) (x : A) : Type 0 where
  pub encoded : Bytes
  pub serialize_lem : c.serialize x ≡ some encoded
  pub deserialize_lem : c.deserialize encoded ≡ some x

abbrev pub Listed : Bytes × Bytes → List (Bytes × Bytes) → Type 0
Listed e [] = ⊥
Listed e (f ∷ rest) = (e ≡ f) ⊎ Listed e rest

-- A scan reads every entry whose key starts with the prefix, once, in the order of the keys.
pub record ScanLaws {Tree : Type 0} (sled : Sled Tree) (find : Tree → Bytes → Option Bytes)
    : Type 0 where
  pub entries : Tree → Bytes → List (Bytes × Bytes)
  pub scan_prefix_lem : (t : Tree) (p : Bytes) → sled.scan_prefix t p ≡ map some (entries t p)
  pub ascends : (t : Tree) (p : Bytes) → Ascends (entries t p)
  pub sound :
      (t : Tree) (p k v : Bytes)
      → Listed (k, v) (entries t p)
      → (find t k ≡ some v) × ((rest : Bytes) × (k ≡ p ++ rest))
  pub complete :
      (t : Tree) (p rest v : Bytes)
      → find t (p ++ rest) ≡ some v
      → Listed (p ++ rest, v) (entries t p)
