-- ===== src/BTreeMap/Canonical.antt =====
-- Sorted maps with the same lookups.
use Prim.Native.Nat.{Ordering}
use baa_ls.Prelude.{
  ◌≡◌, refl, sym, ap, subst, ◌∙◌, inl, inr, false, none, some, [], ◌∷◌, bytes_cmp_refl,
  bytes_cmp_trans, bytes_cmp_flip, bytes_cmp-eq, arith, Bool-cases,
}
use baa_ls.Types.{PublicKey}
use baa_ls.BTreeMap.{
  key_cmp, key_eq, key_eq_sound, key_eq_refl, BTreeMap, get, IsSorted, tail-IsSorted,
}

key_cmp_refl : (k : PublicKey) → key_cmp k k ≡ Ordering.eq
unfolding key_cmp
key_cmp_refl k = bytes_cmp_refl k.bytes

key_lt_ne : (j k : PublicKey) → key_cmp j k ≡ Ordering.lt → key_eq k j ≡ false
key_lt_ne j k h = elim (Bool-cases (key_eq k j)) [
  | inl same ↦
      absurd (cc (ap (λ (x : PublicKey). key_cmp j x) (key_eq_sound k j same), key_cmp_refl j, h))
  | inr other ↦ other
]

module _ {V : Type 0} where
  drop_second : (e f : PublicKey × V) (m : BTreeMap V) → IsSorted (e ∷ f ∷ m) → IsSorted (e ∷ m)
  unfolding key_cmp
  drop_second e f [] h = tt
  drop_second e f (g ∷ m) h = (bytes_cmp_trans e.0.bytes f.0.bytes g.0.bytes h.0 h.1.0, h.1.1)

  -- A key below all others is not found.
  get_below : (k : PublicKey) (v : V) (m : BTreeMap V) → IsSorted ((k, v) ∷ m) → get k m ≡ none
  unfolding get
  get_below k v [] h = refl
  get_below k v ((j, w) ∷ m) h =
      rw (key_lt_ne k j h.0) (get_below k v m (drop_second (k, v) (j, w) m h))

  get_first : (k : PublicKey) (v : V) (m : BTreeMap V) → get k ((k, v) ∷ m) ≡ some v
  unfolding get
  get_first k v m = rw (key_eq_refl k) refl

  same_tails :
      (k : PublicKey) (v : V) (m n : BTreeMap V)
      → IsSorted ((k, v) ∷ m)
      → IsSorted ((k, v) ∷ n)
      → ((q : PublicKey) → get q ((k, v) ∷ m) ≡ get q ((k, v) ∷ n))
      → (q : PublicKey) → get q m ≡ get q n
  unfolding get
  same_tails k v m n hm hn e q = elim (Bool-cases (key_eq k q)) [
    | inl same ↦ rw (← key_eq_sound k q same) (get_below k v m hm ∙ sym (get_below k v n hn))
    | inr other ↦ ground (arith, e q)
  ]

  none-ne-found :
      (k : PublicKey) (v : V) (m n : BTreeMap V) → get k n ≡ none → ¬ (get k ((k, v) ∷ m) ≡ get k n)
  none-ne-found k v m n missing e = cc (get_first k v m)

  -- Two sorted maps that answer every lookup alike are equal.
  pub same_lookups :
      (m n : BTreeMap V) → IsSorted m → IsSorted n → ((k : PublicKey) → get k m ≡ get k n) → m ≡ n
  unfolding key_cmp
  same_lookups [] [] hm hn e = refl
  same_lookups [] ((k, w) ∷ n) hm hn e =
      absurd (none-ne-found k w n [] (unfold get in refl) (sym (e k)))
  same_lookups ((j, v) ∷ m) [] hm hn e = absurd (none-ne-found j v m [] (unfold get in refl) (e j))
  same_lookups ((j, v) ∷ m) ((k, w) ∷ n) hm hn e =
      go (same_lookups m n (tail-IsSorted (j, v) m hm) (tail-IsSorted (k, w) n hn)) (key_cmp j k)
        refl
    where
      at_head : j ≡ k → (((q : PublicKey) → get q m ≡ get q n) → m ≡ n) → (j, v) ∷ m ≡ (k, w) ∷ n
      at_head p rest =
          let value : v ≡ w = cc (get_first j v m, get_first k w n, e j) in
          let entry : ◌≡◌ {A = PublicKey × V} (j, v) (k, w) = cc (p, value) in
          let tails : m ≡ n = rest (
            same_tails k w m n (subst (λ (x : PublicKey × V). IsSorted (x ∷ m)) entry hm) hn (λ q.
              subst (λ (x : PublicKey × V). get q (x ∷ m) ≡ get q ((k, w) ∷ n)) entry (e q))) in
          cc (entry, tails)

      go :
          (((q : PublicKey) → get q m ≡ get q n) → m ≡ n)
          → (o : Ordering) → key_cmp j k ≡ o
          → (j, v) ∷ m ≡ (k, w) ∷ n
      go rest Ordering.eq p =
          at_head
            (ap {B = PublicKey} (λ bytes. record { bytes = bytes })
              (bytes_cmp-eq j.bytes k.bytes p))
            rest
      go rest Ordering.lt p =
          absurd (none-ne-found j v m ((k, w) ∷ n) (get_below j v ((k, w) ∷ n) (p, hn)) (e j))
      go rest Ordering.gt p = absurd (
          none-ne-found k w n ((j, v) ∷ m)
            (get_below k w ((j, v) ∷ m) (bytes_cmp_flip j.bytes k.bytes p, hm)) (sym (e k)))
