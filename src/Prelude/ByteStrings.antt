-- ===== src/Prelude/ByteStrings.antt =====
-- Byte strings: equality, the lexicographic order, and the little-endian encodings of Rust's
-- `to_le_bytes` and `from_le_bytes`.
use Prim.Native.Nat.{ℕ, zero, suc, ◌+◌, ◌*◌, ◌/◌, ◌%◌, ◌^◌, ◌<◌, compare, Ordering}
use Prim.Native.Char.{code}
use Prim.Native.String.{String}
use mathlib.Core.Path.{◌≡◌, refl, ap}
use mathlib.Core.Logic.{◌↔◌, ◌⊎◌, inl, inr}
use mathlib.Core.Bool.{Bool, true, false, ◌&&◌}
use mathlib.Core.List.{List, [], ◌∷◌, ◌++◌}
use native.Mathlib.Omega.{arith}
use native.Mathlib.Nat.{pow-suc}
use baa_ls.Prelude.Tests.{◌==◌}
use baa_ls.Prelude.Lists.{length}

abbrev pub Bytes : Type 0
Bytes = List ℕ

-- The bytes of an ASCII text.
abbrev pub codes : String → Bytes
codes String.[] = []
codes (String.◌∷◌ c s) = code c ∷ codes s

unfoldable pub bytes_eq : Bytes → Bytes → Bool
bytes_eq [] [] = true
bytes_eq [] (y ∷ ys) = false
bytes_eq (x ∷ xs) [] = false
bytes_eq (x ∷ xs) (y ∷ ys) = (x == y) && bytes_eq xs ys

pub bytes_eq_sound : (xs ys : Bytes) → bytes_eq xs ys ≡ true → xs ≡ ys
unfolding bytes_eq
bytes_eq_sound [] [] h = refl
bytes_eq_sound [] (y ∷ ys) h = cc
bytes_eq_sound (x ∷ xs) [] h = cc
bytes_eq_sound (x ∷ xs) (y ∷ ys) h = ground (arith, bytes_eq_sound xs ys)

pub bytes_eq_refl : (xs : Bytes) → bytes_eq xs xs ≡ true
unfolding bytes_eq
bytes_eq_refl [] = refl
bytes_eq_refl (x ∷ xs) = ground (arith, bytes_eq_refl xs)

pub bytes_eq_iff : (xs ys : Bytes) → (bytes_eq xs ys ≡ true) ↔ (xs ≡ ys)
bytes_eq_iff xs ys = (bytes_eq_sound xs ys, λ e. rw e (bytes_eq_refl ys))

-- The order of `[u8]`: the first byte that differs decides, and a prefix comes first.
unfoldable pub bytes_cmp : Bytes → Bytes → Ordering
bytes_cmp [] [] = Ordering.eq
bytes_cmp [] (y ∷ ys) = Ordering.lt
bytes_cmp (x ∷ xs) [] = Ordering.gt
bytes_cmp (x ∷ xs) (y ∷ ys) =
    let rest = bytes_cmp xs ys in
    elim (compare x y) [
      | Ordering.lt ↦ Ordering.lt
      | Ordering.gt ↦ Ordering.gt
      | Ordering.eq ↦ rest
    ]

pub bytes_cmp-eq : (xs ys : Bytes) → bytes_cmp xs ys ≡ Ordering.eq → xs ≡ ys
unfolding bytes_cmp
bytes_cmp-eq [] [] h = refl
bytes_cmp-eq [] (y ∷ ys) h = cc
bytes_cmp-eq (x ∷ xs) [] h = cc
bytes_cmp-eq (x ∷ xs) (y ∷ ys) h = ground (arith, bytes_cmp-eq xs ys)

pub bytes_cmp_refl : (xs : Bytes) → bytes_cmp xs xs ≡ Ordering.eq
unfolding bytes_cmp
bytes_cmp_refl [] = refl
bytes_cmp_refl (x ∷ xs) = ground (arith, bytes_cmp_refl xs)

-- The `w` lowest bytes of a number, the lowest first.
unfoldable pub to_le_bytes : ℕ → ℕ → Bytes
to_le_bytes zero n = []
to_le_bytes (suc w) n = (n % 256) ∷ to_le_bytes w (n / 256)

unfoldable pub from_le_bytes : Bytes → ℕ
from_le_bytes [] = 0
from_le_bytes (b ∷ bs) = b + 256 * from_le_bytes bs

pub length-to_le_bytes : (w n : ℕ) → length (to_le_bytes w n) ≡ w
unfolding to_le_bytes
length-to_le_bytes zero n = refl
length-to_le_bytes (suc w) n = ap suc (length-to_le_bytes w (n / 256))

pub from_le_bytes-to_le_bytes : (w n : ℕ) → n < 256 ^ w → from_le_bytes (to_le_bytes w n) ≡ n
unfolding to_le_bytes from_le_bytes
from_le_bytes-to_le_bytes zero n h = omega arith
from_le_bytes-to_le_bytes (suc w) n h =
    omega (arith, from_le_bytes-to_le_bytes w (n / 256) (omega (arith, pow-suc 256 w)))

pub bytes_cmp_trans :
    (xs ys zs : Bytes)
    → bytes_cmp xs ys ≡ Ordering.lt
    → bytes_cmp ys zs ≡ Ordering.lt
    → bytes_cmp xs zs ≡ Ordering.lt
unfolding bytes_cmp
bytes_cmp_trans [] [] zs h k = cc
bytes_cmp_trans [] (y ∷ ys) [] h k = cc
bytes_cmp_trans [] (y ∷ ys) (z ∷ zs) h k = refl
bytes_cmp_trans (x ∷ xs) [] zs h k = cc
bytes_cmp_trans (x ∷ xs) (y ∷ ys) [] h k = cc
bytes_cmp_trans (x ∷ xs) (y ∷ ys) (z ∷ zs) h k = ground (arith, bytes_cmp_trans xs ys zs)

pub bytes_cmp_flip : (xs ys : Bytes) → bytes_cmp xs ys ≡ Ordering.gt → bytes_cmp ys xs ≡ Ordering.lt
unfolding bytes_cmp
bytes_cmp_flip [] [] h = absurd (cc)
bytes_cmp_flip [] (y ∷ ys) h = absurd (cc)
bytes_cmp_flip (x ∷ xs) [] h = refl
bytes_cmp_flip (x ∷ xs) (y ∷ ys) h = ground (arith, bytes_cmp_flip xs ys)

pub bytes_cmp-cases :
    (xs ys : Bytes)
    → (bytes_cmp xs ys ≡ Ordering.lt)
      ⊎ ((bytes_cmp xs ys ≡ Ordering.eq) ⊎ (bytes_cmp xs ys ≡ Ordering.gt))
bytes_cmp-cases xs ys = go (bytes_cmp xs ys)
  where
    go : (o : Ordering) → (o ≡ Ordering.lt) ⊎ ((o ≡ Ordering.eq) ⊎ (o ≡ Ordering.gt))
    go Ordering.lt = inl refl
    go Ordering.eq = inr (inl refl)
    go Ordering.gt = inr (inr refl)

-- A difference in the first parts decides, and equal first parts leave it to the rests.
pub bytes_cmp-append_lt :
    (xs ys us vs : Bytes)
    → length xs ≡ length ys
    → bytes_cmp xs ys ≡ Ordering.lt
    → bytes_cmp (xs ++ us) (ys ++ vs) ≡ Ordering.lt
unfolding bytes_cmp
bytes_cmp-append_lt [] [] us vs size h = cc
bytes_cmp-append_lt [] (y ∷ ys) us vs size h = absurd (omega arith)
bytes_cmp-append_lt (x ∷ xs) [] us vs size h = absurd (omega arith)
bytes_cmp-append_lt (x ∷ xs) (y ∷ ys) us vs size h = ground (arith, bytes_cmp-append_lt xs ys us vs)

pub bytes_cmp-append_left : (xs us vs : Bytes) → bytes_cmp (xs ++ us) (xs ++ vs) ≡ bytes_cmp us vs
unfolding bytes_cmp
bytes_cmp-append_left [] us vs = refl
bytes_cmp-append_left (x ∷ xs) us vs = ground (arith, bytes_cmp-append_left xs us vs)
