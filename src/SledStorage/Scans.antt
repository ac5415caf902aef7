-- ===== src/SledStorage/Scans.antt =====
-- The entries of a scan (src/storage.rs), as a list that its members determine.
use Prim.Native.Nat.{Ordering}
use baa_ls.Prelude.{
  ◌≡◌, refl, sym, ap, ◌∙◌, inl, inr, some, List, [], ◌∷◌, ◌++◌, Bytes, bytes_cmp, bytes_cmp_refl,
  bytes_cmp_trans, map,
}
use baa_ls.SledStorage.{Sled}
use baa_ls.SledStorage.Laws.{SledLaws, ScanLaws, Ascends, Listed}

below :
    (e x : Bytes × Bytes) (l : List (Bytes × Bytes))
    → Ascends (e ∷ l)
    → Listed x l
    → bytes_cmp e.0 x.0 ≡ Ordering.lt
below e x [] h listed = absurd listed
below e x (f ∷ l) h (inl p) = rw p h.0
below e x (f ∷ l) h (inr listed) = bytes_cmp_trans e.0 f.0 x.0 h.0 (below f x l h.1 listed)

Ascends-tail : (e : Bytes × Bytes) (l : List (Bytes × Bytes)) → Ascends (e ∷ l) → Ascends l
Ascends-tail e [] h = tt
Ascends-tail e (f ∷ l) h = h.1

same_heads :
    (e f : Bytes × Bytes) (l m : List (Bytes × Bytes))
    → Ascends (e ∷ l)
    → Ascends (f ∷ m)
    → Listed e (f ∷ m)
    → Listed f (e ∷ l)
    → e ≡ f
same_heads e f l m hl hm (inl p) k = p
same_heads e f l m hl hm (inr p) (inl q) = sym q
same_heads e f l m hl hm (inr p) (inr q) =
    absurd
      (cc (bytes_cmp_trans e.0 f.0 e.0 (below e f l hl q) (below f e m hm p), bytes_cmp_refl e.0))

in_tail :
    (e x : Bytes × Bytes) (l m : List (Bytes × Bytes))
    → Ascends (e ∷ l)
    → Listed x l
    → Listed x (e ∷ m)
    → Listed x m
in_tail e x l m h listed (inl p) =
    absurd (
      cc
        (below e x l h listed, ap (λ (y : Bytes × Bytes). bytes_cmp y.0 x.0) p, bytes_cmp_refl x.0))
in_tail e x l m h listed (inr q) = q

-- Two ascending lists with the same members are equal.
pub Ascends-same_members :
    (l m : List (Bytes × Bytes))
    → Ascends l
    → Ascends m
    → ((x : Bytes × Bytes) → Listed x l → Listed x m)
    → ((x : Bytes × Bytes) → Listed x m → Listed x l)
    → l ≡ m
Ascends-same_members [] [] hl hm to from = refl
Ascends-same_members [] (f ∷ m) hl hm to from = absurd (from f (inl refl))
Ascends-same_members (e ∷ l) [] hl hm to from = absurd (to e (inl refl))
Ascends-same_members (e ∷ l) (f ∷ m) hl hm to from =
    let head : e ≡ f = same_heads e f l m hl hm (to e (inl refl)) (from f (inl refl)) in
    let rest : l ≡ m =
      Ascends-same_members l m (Ascends-tail e l hl) (Ascends-tail f m hm)
        (λ x k. in_tail e x l m hl k (rw head (to x (inr k))))
        (λ x k. in_tail f x m l hm k (rw (← head) (from x (inr k)))) in
    cc (head, rest)

module _ {Tree : Type 0} (sled : Sled Tree) (laws : SledLaws sled)
    (scans : ScanLaws sled laws.find) where
  moved :
      (t t' : Tree) (p : Bytes)
      → ((rest : Bytes) → laws.find t (p ++ rest) ≡ laws.find t' (p ++ rest))
      → (x : Bytes × Bytes) → Listed x (scans.entries t p)
      → Listed x (scans.entries t' p)
  moved t t' p same (k, v) listed =
      let (found, (rest, split)) = scans.sound t p k v listed in
      rw split (scans.complete t' p rest v (sym (same rest) ∙ ap (laws.find t) (sym split) ∙ found))

  -- The scans of two trees that agree on the keys with the prefix are the same.
  pub same_scans :
      (t t' : Tree) (p : Bytes)
      → ((rest : Bytes) → laws.find t (p ++ rest) ≡ laws.find t' (p ++ rest))
      → sled.scan_prefix t p ≡ sled.scan_prefix t' p
  same_scans t t' p same =
      scans.scan_prefix_lem t p
      ∙ ap (map some) (
          Ascends-same_members (scans.entries t p) (scans.entries t' p) (scans.ascends t p)
            (scans.ascends t' p) (moved t t' p same) (moved t' t p (λ rest. sym (same rest))))
      ∙ sym (scans.scan_prefix_lem t' p)
