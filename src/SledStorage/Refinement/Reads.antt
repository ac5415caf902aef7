-- ===== src/SledStorage/Refinement/Reads.antt =====
-- Reads of a tree of src/storage.rs after a write to it.
use baa_ls.Prelude.{
  ◌≡◌, refl, sym, subst, if◌then◌else◌, none, some, Bytes, bytes_eq, Bool, true, false, ok, arith,
}
use baa_ls.Types.{Codec, Bincode}
use baa_ls.Storage.{Storage}
use baa_ls.SledStorage.{Sled, Hex, SledStorage, or_database_error, decode_entry}
use baa_ls.SledStorage.Laws.{SledLaws, Works}
use baa_ls.SledStorage.Operations.{read_entry, sled_storage}
use baa_ls.SledStorage.RoundTrip.{get-insert, get-remove}
use baa_ls.SledStorage.Specification.{Write, View, specified, perform, Agrees}

module _ {S R : Type 0} (storage : Storage S) where
  pub agree :
      {p p' : R × S} {q q' : R × View} → p ≡ p' → q ≡ q' → Agrees storage p' q' → Agrees storage p q
  agree {p} {p'} {q} {q'} e f a =
      subst (λ (x : R × S). Agrees storage x q) (sym e)
        (subst (λ (y : R × View). Agrees storage p' y) (sym f) a)

pub else_eq :
    {A : Type 0} {r r' : A} (t : Bool) (x : A)
    → r ≡ r'
    → (if t then x else r) ≡ (if t then x else r')
else_eq true x e = refl
else_eq false x e = e

module _ {Tree : Type 0} (sled : Sled Tree) (b : Bincode) (hex : Hex) where
  abbrev pub store : Storage (SledStorage Tree)
  store = sled_storage sled b hex

  -- A call of a method does what its specification does.
  abbrev pub Refined : Write → View → SledStorage Tree → Type 0
  Refined w v s = Agrees store (perform store w s) (specified b w v)

module _ {Tree : Type 0} (sled : Sled Tree) (laws : SledLaws sled) (works : Works sled)
    (b : Bincode) (hex : Hex) where
  -- what is decoded after a write to a tree
  pub read-insert :
      {A : Type 0} (c : Codec A) (t : Tree) (k v : Bytes) (t' : Tree) (j : Bytes)
      → sled.insert t k v ≡ some t'
      → read_entry sled b hex c t' j
        ≡ (if bytes_eq k j then decode_entry c (some v) else read_entry sled b hex c t j)
  unfolding read_entry
  read-insert c t k v t' j e = ground (arith, get-insert sled laws works t k v t' j e)

  pub raw-insert :
      (t : Tree) (k v : Bytes) (t' : Tree) (j : Bytes)
      → sled.insert t k v ≡ some t'
      → or_database_error (sled.get t' j)
        ≡ (if bytes_eq k j then ok (some v) else or_database_error (sled.get t j))
  raw-insert t k v t' j e = ground (arith, get-insert sled laws works t k v t' j e)

  pub raw-remove :
      (t : Tree) (k : Bytes) (t' : Tree) (j : Bytes)
      → sled.remove t k ≡ some t'
      → or_database_error (sled.get t' j)
        ≡ (if bytes_eq k j then ok none else or_database_error (sled.get t j))
  raw-remove t k t' j e = ground (arith, get-remove sled laws works t k t' j e)

  pub read-remove :
      {A : Type 0} (c : Codec A) (t : Tree) (k : Bytes) (t' : Tree) (j : Bytes)
      → sled.remove t k ≡ some t'
      → read_entry sled b hex c t' j
        ≡ (if bytes_eq k j then ok none else read_entry sled b hex c t j)
  unfolding read_entry decode_entry
  read-remove c t k t' j e = ground (arith, get-remove sled laws works t k t' j e)
