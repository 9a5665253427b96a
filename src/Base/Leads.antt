-- ===== src/Base/Leads.antt =====
-- Calls that lead from one condition on the state to another.
use cestos_oversight.Base.Action.{Action, Result, ok, err, continue, gets, ◌>>=◌}
use cestos_oversight.Base.Keeps.{Keeps, After}

-- From a state with `P`, the call fails, or leaves a state with `Q`.
pub record Leads {S A : Type 0} (P Q : S → Type 0) (m : Action S A) : Type 0 where
  pub at : (s : S) → P s → After Q (m s)

module _ {S A : Type 0} {P : S → Type 0} where
  pub Keeps-Leads : (m : Action S A) → Keeps P m → Leads P P m
  Keeps-Leads m k = record { at = k.at }

module _ {S A : Type 0} {P P' Q : S → Type 0} where
  -- A weaker condition is enough.
  pub Leads-weaken : (m : Action S A) → ((s : S) → P s → P' s) → Leads P' Q m → Leads P Q m
  Leads-weaken m w l = record { at = λ s h. l.at s (w s h) }

module _ {S A B : Type 0} {Q R : S → Type 0} where
  continue-Leads :
      (r : Result (A × S)) (f : A → Action S B)
      → After Q r
      → ((a : A) → Leads Q R (f a))
      → After R (continue r f)
  continue-Leads (ok (a, s)) f h l = (l a).at s h
  continue-Leads (err e) f h l = tt

module _ {S A B : Type 0} {P Q R : S → Type 0} where
  pub Leads-bind :
      (m : Action S A) (f : A → Action S B)
      → Leads P Q m
      → ((a : A) → Leads Q R (f a))
      → Leads P R (m >>= f)
  unfolding ◌>>=◌
  Leads-bind m f lm lf = record { at = λ s h. continue-Leads (m s) f (lm.at s h) lf }

module _ {S A B : Type 0} {P Q : S → Type 0} where
  -- A call that keeps the condition, before one that leads on.
  pub Leads-rest :
      (m : Action S A) (f : A → Action S B)
      → Keeps P m
      → ((a : A) → Leads P Q (f a))
      → Leads P Q (m >>= f)
  Leads-rest m f km lf = Leads-bind m f (Keeps-Leads m km) lf

  -- What is read from the state satisfies what the condition says of it.
  pub Leads-gets :
      (g : S → A) (f : A → Action S B)
      → ((s : S) → P s → Leads P Q (f (g s)))
      → Leads P Q (gets g >>= f)
  unfolding ◌>>=◌ gets
  Leads-gets g f l = record { at = λ s h. (l s h).at s h }
