-- ===== src/BTreeMap.antt =====
-- The `BTreeMap` keyed by public keys that src/ledger.rs uses: entries in the order of the keys,
-- which is `Ord for PublicKey` of src/types.rs.
pub mod Canonical
use Prim.Native.Nat.{Ordering}
use baa_ls.Prelude.{
  ◌≢◌, false, bytes_cmp_flip, subst, sym, All, Bool-cases, inl, inr, ◌≡◌, refl, Bool, true, Option,
  none, some, List, [], ◌∷◌, bytes_eq, bytes_eq_sound, bytes_eq_refl, bytes_cmp, bytes_cmp-eq,
  bytes_cmp_refl, arith, if◌then◌else◌, ap,
}
use baa_ls.Types.{PublicKey}

-- `PublicKey::cmp`
unfoldable pub key_cmp : PublicKey → PublicKey → Ordering
key_cmp a b = bytes_cmp a.bytes b.bytes

-- `==` on keys
unfoldable pub key_eq : PublicKey → PublicKey → Bool
key_eq a b = bytes_eq a.bytes b.bytes

pub key_eq_sound : (a b : PublicKey) → key_eq a b ≡ true → a ≡ b
unfolding key_eq
key_eq_sound a b h =
    ap {B = PublicKey} (λ bytes. record { bytes = bytes }) (bytes_eq_sound a.bytes b.bytes h)

pub key_eq_refl : (a : PublicKey) → key_eq a a ≡ true
unfolding key_eq
key_eq_refl a = bytes_eq_refl a.bytes

pub key_eq_ne : (a b : PublicKey) → a ≢ b → key_eq a b ≡ false
key_eq_ne a b d = elim (Bool-cases (key_eq a b)) [
  | inl same ↦ absurd (d (key_eq_sound a b same))
  | inr other ↦ other
]

abbrev pub BTreeMap : Type 0 → Type 0
BTreeMap V = List (PublicKey × V)

module _ {V : Type 0} where
  unfoldable pub get : PublicKey → BTreeMap V → Option V
  get k [] = none
  get k ((j, v) ∷ m) = if key_eq j k then some v else get k m

  unfoldable pub insert : PublicKey → V → BTreeMap V → BTreeMap V
  insert k v [] = (k, v) ∷ []
  insert k v ((j, w) ∷ m) = elim (key_cmp k j) [
    | Ordering.lt ↦ (k, v) ∷ (j, w) ∷ m
    | Ordering.eq ↦ (k, v) ∷ m
    | Ordering.gt ↦ (j, w) ∷ insert k v m
  ]

  pub get-insert :
      (k q : PublicKey) (v : V) (m : BTreeMap V)
      → get q (insert k v m) ≡ (if key_eq k q then some v else get q m)
  unfolding get insert key_cmp key_eq
  get-insert k q v [] = refl
  get-insert k q v ((j, w) ∷ m) = ground (
    arith,
    get-insert k q v m,
    bytes_cmp-eq k.bytes j.bytes,
    bytes_cmp_refl k.bytes,
    bytes_eq_sound k.bytes q.bytes,
    bytes_eq_sound j.bytes q.bytes,
  )

  -- The keys ascend, so each stands once.
  abbrev pub IsSorted : BTreeMap V → Type 0
  IsSorted [] = Unit
  IsSorted (e ∷ []) = Unit
  IsSorted (e ∷ f ∷ m) = (key_cmp e.0 f.0 ≡ Ordering.lt) × IsSorted (f ∷ m)

  tail-IsSorted : (e : PublicKey × V) (m : BTreeMap V) → IsSorted (e ∷ m) → IsSorted m
  tail-IsSorted e [] h = tt
  tail-IsSorted e (f ∷ m) h = h.1

  replaced-IsSorted :
      (j k : PublicKey) (w v : V) (m : BTreeMap V)
      → key_cmp k j ≡ Ordering.eq
      → IsSorted ((j, w) ∷ m)
      → IsSorted ((k, v) ∷ m)
  unfolding key_cmp
  replaced-IsSorted j k w v [] e h = tt
  replaced-IsSorted j k w v (f ∷ m) e h = (rw (bytes_cmp-eq k.bytes j.bytes e) h.0, h.1)

  -- an entry before an insertion, where its key is below both first keys
  cons_insert-IsSorted :
      (e : PublicKey × V) (k : PublicKey) (v : V) (m : BTreeMap V)
      → key_cmp e.0 k ≡ Ordering.lt
      → IsSorted (e ∷ m)
      → IsSorted (insert k v m)
      → IsSorted (e ∷ insert k v m)
  unfolding insert
  cons_insert-IsSorted e k v [] below h i = (below, tt)
  cons_insert-IsSorted e k v ((j, w) ∷ m) below h i = go (key_cmp k j) refl
    where
      at_head :
          {f : PublicKey × V} {r : BTreeMap V}
          → insert k v ((j, w) ∷ m) ≡ f ∷ r
          → key_cmp e.0 f.0 ≡ Ordering.lt
          → IsSorted (e ∷ insert k v ((j, w) ∷ m))
      at_head {f} {r} q lower =
          subst (λ (x : BTreeMap V). IsSorted (e ∷ x)) (sym q) (lower, subst IsSorted q i)

      go : (o : Ordering) → key_cmp k j ≡ o → IsSorted (e ∷ insert k v ((j, w) ∷ m))
      go Ordering.lt p = at_head {f = (k, v)} {r = (j, w) ∷ m} (rw (p, insert) refl) below
      go Ordering.eq p = at_head {f = (k, v)} {r = m} (rw (p, insert) refl) below
      go Ordering.gt p = at_head {f = (j, w)} {r = insert k v m} (rw (p, insert) refl) h.0

  pub insert-IsSorted :
      (k : PublicKey) (v : V) (m : BTreeMap V) → IsSorted m → IsSorted (insert k v m)
  unfolding insert key_cmp
  insert-IsSorted k v [] h = tt
  insert-IsSorted k v ((j, w) ∷ m) h =
      go (insert-IsSorted k v m (tail-IsSorted (j, w) m h)) (key_cmp k j) refl
    where
      go :
          IsSorted (insert k v m)
          → (o : Ordering) → key_cmp k j ≡ o
          → IsSorted (insert k v ((j, w) ∷ m))
      go rest Ordering.lt p = subst IsSorted {x = (k, v) ∷ (j, w) ∷ m} (rw (p, insert) refl) (p, h)
      go rest Ordering.eq p =
          subst IsSorted {x = (k, v) ∷ m} (rw (p, insert) refl) (replaced-IsSorted j k w v m p h)
      go rest Ordering.gt p =
          subst IsSorted {x = (j, w) ∷ insert k v m} (rw (p, insert) refl)
            (cons_insert-IsSorted (j, w) k v m (bytes_cmp_flip k.bytes j.bytes p) h rest)

  -- Every value of the map after an insertion is the new one or an old one.
  pub insert-All :
      (P : V → Type 0) (k : PublicKey) (v : V) (m : BTreeMap V)
      → P v
      → All (λ (e : PublicKey × V). P e.1) m
      → All (λ (e : PublicKey × V). P e.1) (insert k v m)
  unfolding insert
  insert-All P k v [] p h = (p, tt)
  insert-All P k v ((j, w) ∷ m) p h =
      elim (key_cmp k j)
        as (λ (o : Ordering).
          All (λ (e : PublicKey × V). P e.1)
            (elim o [
              | Ordering.lt ↦ (k, v) ∷ (j, w) ∷ m
              | Ordering.eq ↦ (k, v) ∷ m
              | Ordering.gt ↦ (j, w) ∷ insert k v m
            ])) [
              | Ordering.lt ↦ (p, h)
              | Ordering.eq ↦ (p, h.1)
              | Ordering.gt ↦ (h.0, insert-All P k v m p h.1)
            ]

  -- What is found is listed.
  pub get-All :
      (P : V → Type 0) (k : PublicKey) (m : BTreeMap V) (v : V)
      → All (λ (e : PublicKey × V). P e.1) m
      → get k m ≡ some v
      → P v
  unfolding get
  get-All P k [] v h e = absurd (cc)
  get-All P k ((j, w) ∷ m) v h e = elim (Bool-cases (key_eq j k)) [
    | inl same ↦ subst P {x = w} (ground (arith)) h.0
    | inr other ↦ get-All P k m v h.1 (ground arith)
  ]
