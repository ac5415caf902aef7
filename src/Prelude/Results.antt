-- ===== src/Prelude/Results.antt =====
-- Fallible code: `Result` is Rust's, `Outcome` adds what is no return value, and `Action` threads
-- the state of an object, which keeps what was written before an error.
use mathlib.Core.Path.{◌≡◌, refl}
use mathlib.Core.Logic.{◌≢◌, ◌⊎◌, inl, inr}
use mathlib.Core.Bool.{Bool, true, false}
use mathlib.Core.Option.{Option, none, some}

pub data Result (E A : Type 0) : Type 0 where
  ok : A → Result E A
  err : E → Result E A

-- A call returns, panics, or waits for ever on a lock.
pub data Outcome (E A : Type 0) : Type 0 where
  returns : Result E A → Outcome E A
  panics : Outcome E A
  blocks : Outcome E A

abbrev pub map_err : {E F A : Type 0} → (E → F) → Result E A → Result F A
map_err f (ok a) = ok a
map_err f (err e) = err (f e)

-- `Option::ok_or`
abbrev pub ok_or : {E A : Type 0} → Option A → E → Result E A
ok_or none e = err e
ok_or (some a) e = ok a

infixl 5 ◌>>=◌ ◌>>◌
abbrev pub ◌>>=◌ : {E A B : Type 0} → Result E A → (A → Result E B) → Result E B
ok a >>= f = f a
err e >>= f = err e

abbrev pub ◌>>◌ : {E B : Type 0} → Result E (Unit {0}) → Result E B → Result E B
m >> k = m >>= λ _. k

abbrev pub guard : {E : Type 0} → Bool → E → Result E (Unit {0})
guard true e = ok tt
guard false e = err e

-- A method with `&self` over shared mutable state.
abbrev pub Action : Type 0 → Type 0 → Type 0 → Type 0
Action S E A = S → Result E A × S

pub Result-cases :
    {E A : Type 0} (r : Result E A) → ((a : A) × (r ≡ ok a)) ⊎ ((e : E) × (r ≡ err e))
Result-cases (ok a) = inl (a, refl)
Result-cases (err e) = inr (e, refl)

-- whether a call has returned a value
pub Outcome-cases :
    {E : Type 0} (r : Outcome E Unit) → (r ≡ returns (ok tt)) ⊎ (r ≢ returns (ok tt))
Outcome-cases (returns (ok done)) = inl refl
Outcome-cases (returns (err x)) = inr (λ p. cc)
Outcome-cases panics = inr (λ p. cc)
Outcome-cases blocks = inr (λ p. cc)
