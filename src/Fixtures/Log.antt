-- ===== src/Fixtures/Log.antt =====
-- A tree as a log of writes, the newest first, and a hexadecimal coding.
use baa_ls.Prelude.{
  map, subst, ◌+◌, ◌*◌, ◌/◌, ◌%◌, ◌≡◌, ◌≢◌, refl, ap, inr, Option, none, some, List, [], ◌∷◌, Bytes,
  bytes_eq, bytes_cmp, true, false, if◌then◌else◌, arith, Bool, ◌&&◌, ◌==◌, length,
}
use Prim.Native.Nat.{Ordering}
use baa_ls.SledStorage.{SledBatch, Sled, Hex}
use baa_ls.SledStorage.Laws.{batch_find, SledLaws, Works, HexLaws}

abbrev pub Log : Type 0
Log = List (Bytes × Option Bytes)

unfoldable pub find : Log → Bytes → Option Bytes
find [] k = none
find ((j, v) ∷ log) k = if bytes_eq j k then v else find log k

unfoldable pub write_all : SledBatch → Log → Log
write_all [] log = log
write_all (e ∷ batch) log = write_all batch (e ∷ log)

unfoldable pub starts : Bytes → Bytes → Bool
starts [] k = true
starts (x ∷ p) [] = false
starts (x ∷ p) (y ∷ k) = (x == y) && starts p k

-- sorted by key
unfoldable pub put_sorted : Bytes → Bytes → List (Bytes × Bytes) → List (Bytes × Bytes)
put_sorted k v [] = (k, v) ∷ []
put_sorted k v ((j, w) ∷ l) = elim (bytes_cmp k j) [
  | Ordering.lt ↦ (k, v) ∷ (j, w) ∷ l
  | Ordering.eq ↦ (k, v) ∷ l
  | Ordering.gt ↦ (j, w) ∷ put_sorted k v l
]

-- the entries of a log whose key starts with the prefix, as they are found in the whole tree
unfoldable pub collect : Log → Bytes → Log → List (Bytes × Bytes)
unfolding find put_sorted starts
collect t p [] = []
collect t p ((k, v) ∷ log) =
    let rest = collect t p log in
    if starts p k then (elim (find t k) [ none ↦ rest | some w ↦ put_sorted k w rest ]) else rest

abbrev pub log_sled : Sled Log
log_sled = record {
  open_db = λ path. some [];
  open_tree = λ db name. some [];
  get = λ t k. some (find t k);
  insert = λ t k v. some ((k, some v) ∷ t);
  remove = λ t k. some ((k, none) ∷ t);
  apply_batch = λ t batch. some (write_all batch t);
  scan_prefix = λ t p. map some (collect t p t);
}

find-write_all :
    (batch : SledBatch) (t : Log) (j : Bytes)
    → find (write_all batch t) j ≡ batch_find batch j (find t j)
unfolding write_all find
find-write_all [] t j = refl
find-write_all (e ∷ batch) t j = find-write_all batch (e ∷ t) j

abbrev unwrap : Option Log → Log
unwrap none = []
unwrap (some t) = t

pub find-insert :
    (t : Log) (k v : Bytes) (t' : Log) (j : Bytes)
    → some ((k, some v) ∷ t) ≡ some t'
    → find t' j ≡ (if bytes_eq k j then some v else find t j)
unfolding find
find-insert t k v t' j e =
    subst (λ (x : Log). find x j ≡ (if bytes_eq k j then some v else find t j)) (ap unwrap e) refl

pub find-remove :
    (t : Log) (k : Bytes) (t' : Log) (j : Bytes)
    → some ((k, none) ∷ t) ≡ some t'
    → find t' j ≡ (if bytes_eq k j then none else find t j)
unfolding find
find-remove t k t' j e =
    subst (λ (x : Log). find x j ≡ (if bytes_eq k j then none else find t j)) (ap unwrap e) refl

pub find-batch :
    (t : Log) (batch : SledBatch) (t' : Log) (j : Bytes)
    → some (write_all batch t) ≡ some t'
    → find t' j ≡ batch_find batch j (find t j)
find-batch t batch t' j e =
    subst (λ (x : Log). find x j ≡ batch_find batch j (find t j)) (ap unwrap e)
      (find-write_all batch t j)

abbrev pub log_laws : SledLaws log_sled
log_laws = record {
  find = find;
  get_lem = λ t k. inr refl;
  insert_lem = find-insert;
  remove_lem = find-remove;
  apply_batch_lem = find-batch;
}

pub some-ne-none : {A : Type 0} (a : A) → some a ≢ none
some-ne-none a e = cc

abbrev pub log_works : Works log_sled
log_works = record {
  get_works = λ t k. some-ne-none (find t k);
  insert_works = λ t k v. some-ne-none ((k, some v) ∷ t);
  remove_works = λ t k. some-ne-none ((k, none) ∷ t);
  apply_batch_works = λ t batch. some-ne-none (write_all batch t);
}

-- Digits as numbers below 16.
unfoldable pub encode : Bytes → Bytes
encode [] = []
encode (x ∷ xs) = (x / 16) ∷ (x % 16) ∷ encode xs

unfoldable pub decode : Bytes → Option Bytes
decode [] = some []
decode (h ∷ []) = none
decode (h ∷ l ∷ rest) = elim (decode rest) [ none ↦ none | some xs ↦ some ((h * 16 + l) ∷ xs) ]

abbrev pub digits : Hex
digits = record { encode = encode; decode = decode }

pub length-encode : (x : Bytes) → length (encode x) ≡ 2 * length x
unfolding encode
length-encode [] = refl
length-encode (x ∷ xs) = omega (arith, length-encode xs)

pub encode-injective : (x y : Bytes) → encode x ≡ encode y → x ≡ y
unfolding encode
encode-injective [] [] e = refl
encode-injective [] (y ∷ ys) e = absurd (cc)
encode-injective (x ∷ xs) [] e = absurd (cc)
encode-injective (x ∷ xs) (y ∷ ys) e = ground (arith, encode-injective xs ys)

pub decode-encode : (x : Bytes) → decode (encode x) ≡ some x
unfolding encode decode
decode-encode [] = refl
decode-encode (x ∷ xs) = ground (arith, decode-encode xs)

abbrev pub digits_laws : HexLaws digits
digits_laws = record { encode_length = length-encode; encode_injective = encode-injective }
