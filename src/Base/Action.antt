-- ===== src/Base/Action.antt =====
-- A service call inside one database transaction (app/db/session.py, app/core/exceptions.py).
-- An exception leaves the handler and the session is rolled back, so an error carries no state.
use mathlib.Core.Bool.{Bool, true, false}
use mathlib.Core.Option.{Option, none, some}
use Prim.Native.String.{String}

-- The exceptions of app/core/exceptions.py, and Python's `ValueError`, with their messages.
pub data Error : Type 0 where
  authentication forbidden not_found conflict validation value_error : String → Error
  -- A constraint of the database refuses a row.
  integrity : Error
  -- A value does not fit its column.
  out_of_range : Error
  -- Python's `AttributeError`.
  attribute_error : String → Error
  -- A loop of the model that ran out of fuel, which no call does.
  out_of_fuel : Error

pub data Result (A : Type 0) : Type 0 where
  ok : A → Result A
  err : Error → Result A

abbrev pub Action : Type 0 → Type 0 → Type 0
Action S A = S → Result (A × S)

module _ {S A : Type 0} where
  unfoldable pub pure : A → Action S A
  pure a s = ok (a, s)

  unfoldable pub raise : Error → Action S A
  raise e s = err e

  unfoldable pub gets : (S → A) → Action S A
  gets f s = ok (f s, s)

  unfoldable pub or_raise : Option A → Error → Action S A
  or_raise none e s = err e
  or_raise (some a) e s = ok (a, s)

module _ {S : Type 0} where
  unfoldable pub modify : (S → S) → Action S (Unit {0})
  modify f s = ok (tt, f s)

  unfoldable pub raise_if : Bool → Error → Action S (Unit {0})
  raise_if true e s = err e
  raise_if false e s = ok (tt, s)

module _ {S A B : Type 0} where
  abbrev pub continue : Result (A × S) → (A → Action S B) → Result (B × S)
  continue (ok r) f = f r.0 r.1
  continue (err e) f = err e

  infixl 5 ◌>>=◌ ◌>>◌
  -- Opening this opens the other actions too.
  unfoldable pub ◌>>=◌ : Action S A → (A → Action S B) → Action S B
  unfolding pure raise gets or_raise modify raise_if
  ◌>>=◌ m f s = continue (m s) f

  abbrev pub ◌>>◌ : Action S A → Action S B → Action S B
  m >> k = m >>= λ _. k

-- The state after a request: an error rolls the session back (`get_session`).
abbrev pub state_after : {S A : Type 0} → Result (A × S) → S → S
state_after (ok r) s = r.1
state_after (err _) s = s

-- A call that succeeds is a call that returns `ok`.
abbrev pub succeeds : {A : Type 0} → Result A → Bool
succeeds (ok _) = true
succeeds (err _) = false
