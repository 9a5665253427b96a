-- ===== src/Base/Gives.antt =====
-- Service calls that keep an invariant, and what the values they return satisfy in a state with it.
use mathlib.Core.Path.{◌≡◌, refl}
use mathlib.Core.Bool.{Bool, true, false}
use mathlib.Core.Option.{Option, none, some}
use cestos_oversight.Base.Tests.{if◌then◌else◌}
use cestos_oversight.Base.Action.{
  Action, Error, Result, ok, err, continue, pure, raise, gets, or_raise, raise_if, ◌>>=◌,
}
use cestos_oversight.Base.Keeps.{Keeps, After}
use cestos_oversight.Base.Leads.{Leads}

-- What holds of the value and the state of a call, if it succeeds.
abbrev pub Given : {S A : Type 0} → (S → Type 0) → (A → Type 0) → Result (A × S) → Type 0
Given P R (ok r) = R r.0 × P r.1
Given P R (err e) = Unit

-- From a state with `P`, the call fails, or leaves a state with `P` and returns a value with `R`.
pub record Gives {S A : Type 0} (P : S → Type 0) (R : A → Type 0) (m : Action S A) : Type 0 where
  pub at : (s : S) → P s → Given P R (m s)

module _ {S A : Type 0} (P : S → Type 0) where
  forget_value : (R : A → Type 0) (r : Result (A × S)) → Given P R r → After P r
  forget_value R (ok r) g = g.1
  forget_value R (err e) g = tt

  any_value : (r : Result (A × S)) → After P r → Given P (λ _. Unit {0}) r
  any_value (ok r) h = (tt, h)
  any_value (err e) h = tt

module _ {S A : Type 0} {P : S → Type 0} {R : A → Type 0} where
  pub Gives-pure : (a : A) → R a → Gives P R (pure a)
  unfolding pure
  Gives-pure a r = record { at = λ s h. (r, h) }

  pub Gives-raise : (e : Error) → Gives P R (raise e)
  unfolding raise
  Gives-raise e = record { at = λ s h. tt }

  pub Gives-gets : (f : S → A) → ((s : S) → P s → R (f s)) → Gives P R (gets f)
  unfolding gets
  Gives-gets f r = record { at = λ s h. (r s h, h) }

  pub Gives-if :
      (b : Bool) (m n : Action S A)
      → (b ≡ true → Gives P R m)
      → (b ≡ false → Gives P R n)
      → Gives P R (if b then m else n)
  Gives-if true m n gm gn = gm refl
  Gives-if false m n gm gn = gn refl

  pub Gives-Keeps : (m : Action S A) → Gives P R m → Keeps P m
  Gives-Keeps m g = record { at = λ s h. forget_value P R (m s) (g.at s h) }

  pub Gives-or_raise :
      (o : Option A) (e : Error) → ((a : A) → o ≡ some a → R a) → Gives P R (or_raise o e)
  unfolding or_raise
  Gives-or_raise none e r = record { at = λ s h. tt }
  Gives-or_raise (some a) e r = record { at = λ s h. (r a refl, h) }

module _ {S A : Type 0} {P : S → Type 0} where
  pub Keeps-Gives : (m : Action S A) → Keeps P m → Gives P (λ _. Unit {0}) m
  Keeps-Gives m k = record { at = λ s h. any_value P (m s) (k.at s h) }

module _ {S : Type 0} {P : S → Type 0} where
  pub Gives-raise_if : (b : Bool) (e : Error) → Gives P (λ _. b ≡ false) (raise_if b e)
  unfolding raise_if
  Gives-raise_if true e = record { at = λ s h. tt }
  Gives-raise_if false e = record { at = λ s h. (refl, h) }

module _ {S A B : Type 0} {P : S → Type 0} {R : A → Type 0} {Q : B → Type 0} where
  continue-Given :
      (r : Result (A × S)) (f : A → Action S B)
      → Given P R r
      → ((a : A) → R a → Gives P Q (f a))
      → Given P Q (continue r f)
  continue-Given (ok (a, s)) f g k = (k a g.0).at s g.1
  continue-Given (err e) f g k = tt

  pub Gives-bind :
      {m : Action S A} {f : A → Action S B}
      → Gives P R m
      → ((a : A) → R a → Gives P Q (f a))
      → Gives P Q (m >>= f)
  unfolding ◌>>=◌
  Gives-bind {m} {f} g k = record { at = λ s h. continue-Given (m s) f (g.at s h) k }

module _ {S A B : Type 0} {P : S → Type 0} {Q : B → Type 0} where
  -- A call whose value does not matter.
  pub Gives-then :
      {m : Action S A} {f : A → Action S B}
      → Keeps P m
      → ((a : A) → Gives P Q (f a))
      → Gives P Q (m >>= f)
  Gives-then {m} k g = Gives-bind (Keeps-Gives m k) (λ a _. g a)

module _ {S A B : Type 0} {P Q : S → Type 0} {R : A → Type 0} where
  continue-leading :
      (r : Result (A × S)) (f : A → Action S B)
      → Given P R r
      → ((a : A) → R a → Leads P Q (f a))
      → After Q (continue r f)
  continue-leading (ok (a, s)) f g k = (k a g.0).at s g.1
  continue-leading (err e) f g k = tt

  -- A call that keeps the condition, before one that leads on from it.
  pub Gives-Leads :
      {m : Action S A} {f : A → Action S B}
      → Gives P R m
      → ((a : A) → R a → Leads P Q (f a))
      → Leads P Q (m >>= f)
  unfolding ◌>>=◌
  Gives-Leads {m} {f} g k = record { at = λ s h. continue-leading (m s) f (g.at s h) k }
