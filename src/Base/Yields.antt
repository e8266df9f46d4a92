-- ===== src/Base/Yields.antt =====
-- What holds of the value of a call, if it returns one.
use mathlib.Core.Path.{◌≡◌, refl, subst}
use mathlib.Core.Bool.{Bool, true, false}
use gput.Base.Failure.{Outcome, Error, ok, err, panic, ◌>>=◌, ensure, ok_injective}

pub data Yields {A : Type 0} (P : A → Type 0) : Outcome A → Type 0 where
  yields : {a : A} → P a → Yields P (ok a)
  fails : {e : Error} → Yields P (err e)
  panics : Yields P panic

module _ {A : Type 0} {P : A → Type 0} where
  pub bind :
      {B : Type 0} {Q : B → Type 0} {m : Outcome A} {k : A → Outcome B}
      → Yields P m
      → ((a : A) → P a → Yields Q (k a))
      → Yields Q (m >>= k)
  bind (yields p) next = next _ p
  bind fails next = fails
  bind panics next = panics

  pub mono : {Q : A → Type 0} {m : Outcome A} → Yields P m → ((a : A) → P a → Q a) → Yields Q m
  mono (yields p) weaken = yields (weaken _ p)
  mono fails weaken = fails
  mono panics weaken = panics

  -- The value of a call that is known to return.
  pub value : (a : A) {m : Outcome A} → Yields P m → m ≡ ok a → P a
  value a (yields {a = b} p) h = subst P (ok_injective b a h) p
  value a fails h = cc
  value a panics h = cc

-- The value, and where it is from.
pub it : {A : Type 0} (m : Outcome A) → Yields (λ a. m ≡ ok a) m
it (ok a) = yields refl
it (err e) = fails
it panic = panics

pub ensured : (b : Bool) (e : Error) → Yields (λ _. b ≡ true) (ensure b e)
ensured true e = yields refl
ensured false e = fails

pub both :
    {A : Type 0} {P Q : A → Type 0} {m : Outcome A}
    → Yields P m
    → Yields Q m
    → Yields (λ a. P a × Q a) m
both {P} {Q} (yields {a = a} p) q = yields (p, value a q refl)
both fails q = fails
both panics q = panics
