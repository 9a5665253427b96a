-- ===== src/Base/Keeps.antt =====
-- Invariants of service calls, one rule for each way in which a call is built.
use mathlib.Core.Bool.{Bool, true, false}
use mathlib.Core.Option.{Option, none, some}
use cestos_oversight.Base.Tests.{if◌then◌else◌}
use cestos_oversight.Base.Action.{
  Action, Error, Result, ok, err, continue, pure, raise, gets, or_raise, modify, raise_if, ◌>>=◌,
}

-- What holds of the state that a call leaves, if it succeeds.
abbrev pub After : {S A : Type 0} → (S → Type 0) → Result (A × S) → Type 0
After P (ok r) = P r.1
After P (err e) = Unit

-- From a state with `P`, the call fails, or leaves a state with `P`.
pub record Keeps {S A : Type 0} (P : S → Type 0) (m : Action S A) : Type 0 where
  pub at : (s : S) → P s → After P (m s)

module _ {S A : Type 0} {P : S → Type 0} where
  pub Keeps-pure : (a : A) → Keeps P (pure a)
  unfolding pure
  Keeps-pure a = record { at = λ s h. h }

  pub Keeps-raise : (e : Error) → Keeps P (raise {A = A} e)
  unfolding raise
  Keeps-raise e = record { at = λ s h. tt }

  pub Keeps-gets : (f : S → A) → Keeps P (gets f)
  unfolding gets
  Keeps-gets f = record { at = λ s h. h }

  pub Keeps-or_raise : (o : Option A) (e : Error) → Keeps P (or_raise o e)
  unfolding or_raise
  Keeps-or_raise none e = record { at = λ s h. tt }
  Keeps-or_raise (some a) e = record { at = λ s h. h }

  pub Keeps-if :
      (b : Bool) (m n : Action S A) → Keeps P m → Keeps P n → Keeps P (if b then m else n)
  Keeps-if true m n km kn = km
  Keeps-if false m n km kn = kn

module _ {S : Type 0} {P : S → Type 0} where
  pub Keeps-modify : (f : S → S) → ((s : S) → P s → P (f s)) → Keeps P (modify f)
  unfolding modify
  Keeps-modify f h = record { at = h }

  pub Keeps-raise_if : (b : Bool) (e : Error) → Keeps P (raise_if b e)
  unfolding raise_if
  Keeps-raise_if true e = record { at = λ s h. tt }
  Keeps-raise_if false e = record { at = λ s h. h }

module _ {S A B : Type 0} {P : S → Type 0} where
  continue-After :
      (r : Result (A × S)) (f : A → Action S B)
      → After P r
      → ((a : A) → Keeps P (f a))
      → After P (continue r f)
  continue-After (ok (a, s)) f h kf = (kf a).at s h
  continue-After (err e) f h kf = tt

  pub Keeps-bind :
      (m : Action S A) (f : A → Action S B)
      → Keeps P m
      → ((a : A) → Keeps P (f a))
      → Keeps P (m >>= f)
  unfolding ◌>>=◌
  Keeps-bind m f km kf = record { at = λ s h. continue-After (m s) f (km.at s h) kf }

pub ruleset keeps_rules =
    (Keeps-pure, Keeps-raise, Keeps-gets, Keeps-or_raise, Keeps-raise_if, Keeps-if, Keeps-bind)
