-- ===== src/Prelude/Actions.antt =====
-- The monad of methods that mutate and may fail: what was written before an error stays written.
use mathlib.Core.Bool.{Bool}
use baa_ls.Prelude.Results.{Result, ok, err, Action, map_err, guard}

module _ {S E A : Type 0} where
  abbrev pub pure : A → Action S E A
  pure a s = (ok a, s)

  abbrev pub raise : E → Action S E A
  raise e s = (err e, s)

  abbrev pub lift : Result E A → Action S E A
  lift r s = (r, s)

-- `map_err(f)?`, or the conversion that `?` makes
abbrev pub with_error : {S E F A : Type 0} → (E → F) → Action S E A → Action S F A
with_error f m s = let (r, s') = m s in (map_err f r, s')

-- a call that only reads the state
abbrev pub reads : {S E F A : Type 0} → (E → F) → (S → Result E A) → Action S F A
reads f m s = (map_err f (m s), s)

abbrev pub require : {S E : Type 0} → Bool → E → Action S E (Unit {0})
require c e = lift (guard c e)

module _ {S E A B : Type 0} where
  abbrev pub continue : Result E A → (A → Action S E B) → Action S E B
  continue (ok a) f s = f a s
  continue (err e) f s = (err e, s)

  infixl 5 ◌>>=◌ ◌>>◌
  abbrev pub ◌>>=◌ : Action S E A → (A → Action S E B) → Action S E B
  ◌>>=◌ m f s = let (r, s') = m s in continue r f s'

  abbrev pub ◌>>◌ : Action S E A → Action S E B → Action S E B
  m >> k = m >>= λ _. k
