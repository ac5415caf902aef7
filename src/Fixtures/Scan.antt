-- ===== src/Fixtures/Scan.antt =====
-- The scans of a log.
use Prim.Native.Nat.{Ordering}
use baa_ls.Prelude.{
  bytes_cmp_flip, bytes_cmp-cases, subst, ◌≡◌, refl, sym, ap, ◌∙◌, ◌⊎◌, inl, inr, true, false,
  Option, none, some, List, [], ◌∷◌, ◌++◌, Bytes, bytes_eq, bytes_eq_sound, bytes_cmp, bytes_cmp-eq,
  arith, Bool-cases, Option-cases,
}
use baa_ls.SledStorage.Laws.{Ascends, Listed, ScanLaws}
use baa_ls.Fixtures.Log.{Log, find, starts, put_sorted, collect, log_sled}

put_lt :
    (k v j w : Bytes) (l : List (Bytes × Bytes))
    → bytes_cmp k j ≡ Ordering.lt
    → put_sorted k v ((j, w) ∷ l) ≡ (k, v) ∷ (j, w) ∷ l
unfolding put_sorted
put_lt k v j w l p = rw (p, put_sorted) refl

put_eq :
    (k v j w : Bytes) (l : List (Bytes × Bytes))
    → bytes_cmp k j ≡ Ordering.eq
    → put_sorted k v ((j, w) ∷ l) ≡ (k, v) ∷ l
unfolding put_sorted
put_eq k v j w l p = rw (p, put_sorted) refl

put_gt :
    (k v j w : Bytes) (l : List (Bytes × Bytes))
    → bytes_cmp k j ≡ Ordering.gt
    → put_sorted k v ((j, w) ∷ l) ≡ (j, w) ∷ put_sorted k v l
unfolding put_sorted
put_gt k v j w l p = rw (p, put_sorted) refl

-- an entry before an insertion, where it comes before both heads
cons-Ascends :
    (e : Bytes × Bytes) (k v : Bytes) (l : List (Bytes × Bytes))
    → bytes_cmp e.0 k ≡ Ordering.lt
    → Ascends (e ∷ l)
    → Ascends (put_sorted k v l)
    → Ascends (e ∷ put_sorted k v l)
unfolding put_sorted
cons-Ascends e k v [] h a b = (h, tt)
cons-Ascends e k v ((j, w) ∷ l) h a b = elim (bytes_cmp-cases k j) [
  | inl p ↦ at_head (put_lt k v j w l p) h
  | inr (inl p) ↦ at_head (put_eq k v j w l p) h
  | inr (inr p) ↦ at_head (put_gt k v j w l p) a.0
]
  where
    at_head :
        {f : Bytes × Bytes} {r : List (Bytes × Bytes)}
        → put_sorted k v ((j, w) ∷ l) ≡ f ∷ r
        → bytes_cmp e.0 f.0 ≡ Ordering.lt
        → Ascends (e ∷ put_sorted k v ((j, w) ∷ l))
    at_head {f} {r} q below =
        subst (λ (x : List (Bytes × Bytes)). Ascends (e ∷ x)) (sym q) (below, subst Ascends q b)

same_head :
    (j k w v : Bytes) (l : List (Bytes × Bytes))
    → k ≡ j
    → Ascends ((j, w) ∷ l)
    → Ascends ((k, v) ∷ l)
same_head j k w v [] e h = tt
same_head j k w v (f ∷ l) e h = (rw e h.0, h.1)

tail-Ascends : (e : Bytes × Bytes) (l : List (Bytes × Bytes)) → Ascends (e ∷ l) → Ascends l
tail-Ascends e [] h = tt
tail-Ascends e (f ∷ l) h = h.1

put_sorted-Ascends :
    (k v : Bytes) (l : List (Bytes × Bytes)) → Ascends l → Ascends (put_sorted k v l)
unfolding put_sorted
put_sorted-Ascends k v [] h = tt
put_sorted-Ascends k v ((j, w) ∷ l) h = elim (bytes_cmp-cases k j) [
  | inl p ↦ subst Ascends (sym (put_lt k v j w l p)) (p, h)
  | inr (inl p) ↦
      subst Ascends (sym (put_eq k v j w l p)) (same_head j k w v l (bytes_cmp-eq k j p) h)
  | inr (inr p) ↦ subst Ascends (sym (put_gt k v j w l p)) (
      cons-Ascends (j, w) k v l (bytes_cmp_flip k j p) h
        (put_sorted-Ascends k v l (tail-Ascends (j, w) l h)))
]

put_sorted-Listed :
    (e : Bytes × Bytes) (k v : Bytes) (l : List (Bytes × Bytes))
    → Listed e (put_sorted k v l)
    → (e ≡ (k, v)) ⊎ Listed e l
unfolding put_sorted
put_sorted-Listed e k v [] h = h
put_sorted-Listed e k v ((j, w) ∷ l) h = elim (bytes_cmp-cases k j) [
  | inl p ↦ subst (Listed e) (put_lt k v j w l p) h
  | inr (inl p) ↦ elim (subst (Listed e) (put_eq k v j w l p) h) [
    | inl q ↦ inl q
    | inr q ↦ inr (inr q)
  ]
  | inr (inr p) ↦ elim (subst (Listed e) (put_gt k v j w l p) h) [
    | inl q ↦ inr (inl q)
    | inr q ↦ elim (put_sorted-Listed e k v l q) [ inl r ↦ inl r | inr r ↦ inr (inr r) ]
  ]
]

put_sorted_new : (k v : Bytes) (l : List (Bytes × Bytes)) → Listed (k, v) (put_sorted k v l)
unfolding put_sorted
put_sorted_new k v [] = inl refl
put_sorted_new k v ((j, w) ∷ l) = elim (bytes_cmp-cases k j) [
  | inl p ↦ subst (Listed (k, v)) (sym (put_lt k v j w l p)) (inl refl)
  | inr (inl p) ↦ subst (Listed (k, v)) (sym (put_eq k v j w l p)) (inl refl)
  | inr (inr p) ↦ subst (Listed (k, v)) (sym (put_gt k v j w l p)) (inr (put_sorted_new k v l))
]

-- an entry stays, where it is not replaced
put_sorted_old :
    (e : Bytes × Bytes) (k v : Bytes) (l : List (Bytes × Bytes))
    → Listed e l
    → Listed e (put_sorted k v l) ⊎ (e.0 ≡ k)
put_sorted_old e k v [] h = absurd h
put_sorted_old e k v ((j, w) ∷ l) h = elim (bytes_cmp-cases k j) [
  | inl p ↦ inl (subst (Listed e) (sym (put_lt k v j w l p)) (inr h))
  | inr (inl p) ↦ elim h [
    | inl q ↦ inr (ap {A = Bytes × Bytes} (λ x. x.0) q ∙ sym (bytes_cmp-eq k j p))
    | inr q ↦ inl (subst (Listed e) (sym (put_eq k v j w l p)) (inr q))
  ]
  | inr (inr p) ↦ elim h [
    | inl q ↦ inl (subst (Listed e) (sym (put_gt k v j w l p)) (inl q))
    | inr q ↦ elim (put_sorted_old e k v l q) [
      | inl r ↦ inl (subst (Listed e) (sym (put_gt k v j w l p)) (inr r))
      | inr r ↦ inr r
    ]
  ]
]

starts_rest : (p k : Bytes) → starts p k ≡ true → (rest : Bytes) × (k ≡ p ++ rest)
unfolding starts
starts_rest [] k h = (k, refl)
starts_rest (x ∷ p) [] h = absurd (cc)
starts_rest (x ∷ p) (y ∷ k) h =
    let (rest, e) = starts_rest p k (ground arith) in (rest, ground arith)

starts-append : (p rest : Bytes) → starts p (p ++ rest) ≡ true
unfolding starts
starts-append [] rest = refl
starts-append (x ∷ p) rest = ground (arith, starts-append p rest)

-- what one round of `collect` does
collect_found :
    (t : Log) (p k v : Bytes) (o : Option Bytes) (log : Log)
    → starts p k ≡ true
    → find t k ≡ some v
    → collect t p ((k, o) ∷ log) ≡ put_sorted k v (collect t p log)
unfolding collect
collect_found t p k v o log h e = rw (h, e) refl

collect_removed :
    (t : Log) (p k : Bytes) (o : Option Bytes) (log : Log)
    → starts p k ≡ true
    → find t k ≡ none
    → collect t p ((k, o) ∷ log) ≡ collect t p log
unfolding collect
collect_removed t p k o log h e = rw (h, e) refl

collect_other :
    (t : Log) (p k : Bytes) (o : Option Bytes) (log : Log)
    → starts p k ≡ false
    → collect t p ((k, o) ∷ log) ≡ collect t p log
unfolding collect
collect_other t p k o log h = rw h refl

Round : Log → Bytes → Bytes → Option Bytes → Log → Type 0
Round t p k o log =
    ((v : Bytes) × (starts p k ≡ true)
      × (find t k ≡ some v)
      × (collect t p ((k, o) ∷ log) ≡ put_sorted k v (collect t p log)))
    ⊎ ((collect t p ((k, o) ∷ log) ≡ collect t p log) × ((find t k ≡ none) ⊎ (starts p k ≡ false)))

round : (t : Log) (p k : Bytes) (o : Option Bytes) (log : Log) → Round t p k o log
unfolding Round
round t p k o log = elim (Bool-cases (starts p k)) [
  | inl h ↦ elim (Option-cases (find t k)) [
    | inl e ↦ inr (collect_removed t p k o log h e, inl e)
    | inr (v, e) ↦ inl (v, h, e, collect_found t p k v o log h e)
  ]
  | inr h ↦ inr (collect_other t p k o log h, inr h)
]

collect-Ascends : (t : Log) (p : Bytes) (log : Log) → Ascends (collect t p log)
unfolding Round collect
collect-Ascends t p [] = tt
collect-Ascends t p ((k, o) ∷ log) = elim (round t p k o log) [
  | inl (v, h, e, q) ↦
      subst Ascends (sym q) (put_sorted-Ascends k v (collect t p log) (collect-Ascends t p log))
  | inr (q, why) ↦ subst Ascends (sym q) (collect-Ascends t p log)
]

collect_sound :
    (t : Log) (p : Bytes) (log : Log) (k v : Bytes)
    → Listed (k, v) (collect t p log)
    → (find t k ≡ some v) × (starts p k ≡ true)
unfolding Round collect
collect_sound t p [] k v h = absurd h
collect_sound t p ((j, o) ∷ log) k v h = elim (round t p j o log) [
  | inl (w, s, e, q) ↦
      elim (put_sorted-Listed (k, v) j w (collect t p log) (subst (Listed (k, v)) q h)) [
        | inl same ↦ (
          ap (find t) (ap {A = Bytes × Bytes} (λ x. x.0) same)
              ∙ (e ∙ ap some (sym (ap {A = Bytes × Bytes} (λ x. x.1) same))),
          ap (starts p) (ap {A = Bytes × Bytes} (λ x. x.0) same) ∙ s,
        )
        | inr later ↦ collect_sound t p log k v later
      ]
  | inr (q, why) ↦ collect_sound t p log k v (subst (Listed (k, v)) q h)
]

Logged : Bytes → Log → Type 0
Logged k [] = ⊥
Logged k ((j, o) ∷ log) = (k ≡ j) ⊎ Logged k log

found-Logged : (t : Log) (k v : Bytes) → find t k ≡ some v → Logged k t
unfolding find Logged
found-Logged [] k v e = absurd (cc)
found-Logged ((j, o) ∷ log) k v e = elim (Bool-cases (bytes_eq j k)) [
  | inl same ↦ inl (sym (bytes_eq_sound j k same))
  | inr other ↦ inr (found-Logged log k v (rw other at e))
]

collect_complete :
    (t : Log) (p : Bytes) (log : Log) (k v : Bytes)
    → Logged k log
    → find t k ≡ some v
    → starts p k ≡ true
    → Listed (k, v) (collect t p log)
unfolding Round Logged
collect_complete t p [] k v m e s = absurd m
collect_complete t p ((j, o) ∷ log) k v (inl same) e s =
    subst (Listed (k, v))
      (sym (
        ap {A = Log} (collect t p) (ap {A = Bytes} {B = Log} (λ x. (x, o) ∷ log) (sym same))
        ∙ collect_found t p k v o log s e))
      (put_sorted_new k v (collect t p log))
collect_complete t p ((j, o) ∷ log) k v (inr later) e s =
    let ih = collect_complete t p log k v later e s in
    elim (round t p j o log) [
      | inl (w, s', e', q) ↦ subst (Listed (k, v)) (sym q) (kept j w e' ih)
      | inr (q, why) ↦ subst (Listed (k, v)) (sym q) ih
    ]
  where
    kept :
        (j w : Bytes)
        → find t j ≡ some w
        → Listed (k, v) (collect t p log)
        → Listed (k, v) (put_sorted j w (collect t p log))
    kept j w e' ih = elim (put_sorted_old (k, v) j w (collect t p log) ih) [
      | inl there ↦ there
      | inr same ↦
          subst (λ (x : Bytes × Bytes). Listed x (put_sorted j w (collect t p log))) (pair same)
            (put_sorted_new j w (collect t p log))
    ]
      where
        pair : k ≡ j → ◌≡◌ {A = Bytes × Bytes} (j, w) (k, v)
        pair same = ground (arith, ap (find t) same)

sound_prefix :
    (t : Log) (p k v : Bytes)
    → Listed (k, v) (collect t p t)
    → (find t k ≡ some v) × ((rest : Bytes) × (k ≡ p ++ rest))
sound_prefix t p k v h = let (e, s) = collect_sound t p t k v h in (e, starts_rest p k s)

complete_prefix :
    (t : Log) (p rest v : Bytes)
    → find t (p ++ rest) ≡ some v
    → Listed (p ++ rest, v) (collect t p t)
complete_prefix t p rest v e =
    collect_complete t p t (p ++ rest) v (found-Logged t (p ++ rest) v e) e (starts-append p rest)

pub log_scans : ScanLaws log_sled find
log_scans = record {
  entries = λ t p. collect t p t;
  scan_prefix_lem = λ t p. refl;
  ascends = λ t p. collect-Ascends t p t;
  sound = sound_prefix;
  complete = complete_prefix;
}
