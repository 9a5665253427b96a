-- ===== src/Base/Yields.antt =====
-- What the value that a call returns satisfies, one rule for each way in which a call is built.
use mathlib.Core.Bool.{Bool, true, false}
use cestos_oversight.Base.Tests.{if◌then◌else◌}
use cestos_oversight.Base.Action.{Action, Error, Result, ok, err, continue, pure, raise, ◌>>=◌}

-- What holds of the value of a call, if it succeeds.
abbrev pub Returned : {S A : Type 0} → (A → Type 0) → Result (A × S) → Type 0
Returned Q (ok r) = Q r.0
Returned Q (err e) = Unit

pub record Yields {S A : Type 0} (Q : A → Type 0) (m : Action S A) : Type 0 where
  pub at : (s : S) → Returned Q (m s)

module _ {S A : Type 0} {Q : A → Type 0} where
  pub Yields-pure : (a : A) → Q a → Yields Q (pure {S = S} a)
  unfolding pure
  Yields-pure a q = record { at = λ s. q }

  pub Yields-raise : (e : Error) → Yields Q (raise {S = S} {A = A} e)
  unfolding raise
  Yields-raise e = record { at = λ s. tt }

  pub Yields-if :
      (b : Bool) (m n : Action S A) → Yields Q m → Yields Q n → Yields Q (if b then m else n)
  Yields-if true m n ym yn = ym
  Yields-if false m n ym yn = yn

module _ {S A B : Type 0} {Q : B → Type 0} where
  continue-Returned :
      (r : Result (A × S)) (f : A → Action S B)
      → ((a : A) → Yields Q (f a))
      → Returned Q (continue r f)
  continue-Returned (ok (a, s)) f h = (h a).at s
  continue-Returned (err e) f h = tt

  pub Yields-bind :
      (m : Action S A) (f : A → Action S B) → ((a : A) → Yields Q (f a)) → Yields Q (m >>= f)
  unfolding ◌>>=◌
  Yields-bind m f h = record { at = λ s. continue-Returned (m s) f h }

pub ruleset yields_rules = (Yields-raise, Yields-if, Yields-bind)

module _ {S A B : Type 0} {R : A → Type 0} {Q : B → Type 0} where
  continue_after :
      (r : Result (A × S)) (f : A → Action S B)
      → Returned R r
      → ((a : A) → R a → Yields Q (f a))
      → Returned Q (continue r f)
  continue_after (ok (a, s)) f q h = (h a q).at s
  continue_after (err e) f q h = tt

  -- A bind whose rest uses what its first call returns.
  pub Yields-after :
      (m : Action S A) (f : A → Action S B)
      → Yields R m
      → ((a : A) → R a → Yields Q (f a))
      → Yields Q (m >>= f)
  unfolding ◌>>=◌
  Yields-after m f ym h = record { at = λ s. continue_after (m s) f (ym.at s) h }
