-- ===== src/Base/Never.antt =====
-- Calls that fail from every state, one rule for each place in which the failing part may stand.
use mathlib.Core.Path.{◌≡◌, refl}
use mathlib.Core.Bool.{false}
use cestos_oversight.Base.Action.{Action, Error, Result, ok, err, continue, raise, succeeds, ◌>>=◌}

pub record Never {S A : Type 0} (m : Action S A) : Type 0 where
  pub at : (s : S) → succeeds (m s) ≡ false

module _ {S A B : Type 0} where
  continue_first :
      (r : Result (A × S)) (f : A → Action S B)
      → succeeds r ≡ false
      → succeeds (continue r f) ≡ false
  continue_first (ok a) f h = cc
  continue_first (err e) f h = refl

  continue_rest :
      (r : Result (A × S)) (f : A → Action S B)
      → ((a : A) → Never (f a))
      → succeeds (continue r f) ≡ false
  continue_rest (ok (a, s)) f h = (h a).at s
  continue_rest (err e) f h = refl

  pub Never-first : (m : Action S A) (f : A → Action S B) → Never m → Never (m >>= f)
  unfolding ◌>>=◌
  Never-first m f h = record { at = λ s. continue_first (m s) f (h.at s) }

  pub Never-rest : (m : Action S A) (f : A → Action S B) → ((a : A) → Never (f a)) → Never (m >>= f)
  unfolding ◌>>=◌
  Never-rest m f h = record { at = λ s. continue_rest (m s) f h }

module _ {S A : Type 0} where
  pub Never-raise : (e : Error) → Never (raise {S = S} {A = A} e)
  unfolding raise
  Never-raise e = record { at = λ s. refl }
