-- ===== src/Common/Result.antt =====
-- Go's `(T, error)`: a value or an error. A handler of a store returns it beside the store that it
-- leaves, since what was written before an error stays written.
use mathlib.Core.Path.{◌≡◌, refl}
use mathlib.Core.Bool.{Bool, true, false}
use mathlib.Core.Logic.{◌⊎◌, inl, inr}

pub data Result (E A : Type 0) : Type 0 where
  ok : A → Result E A
  err : E → Result E A

pub Result-cases :
    {E A : Type 0} (r : Result E A) → ((a : A) × (r ≡ ok a)) ⊎ ((e : E) × (r ≡ err e))
Result-cases (ok a) = inl (a, refl)
Result-cases (err e) = inr (e, refl)

abbrev pub is_err : {E A : Type 0} → Result E A → Bool
is_err (ok a) = false
is_err (err e) = true

-- A handler that refuses returns an error and leaves the store as it found it.
abbrev pub Refuses : {E A S : Type 0} → S → Result E A × S → Type 0
Refuses s r = (is_err r.0 ≡ true) × (r.1 ≡ s)

-- A handler that succeeds leaves the store `t`.
abbrev pub Succeeds : {E A S : Type 0} → S → Result E A × S → Type 0
Succeeds t r = (is_err r.0 ≡ false) × (r.1 ≡ t)
