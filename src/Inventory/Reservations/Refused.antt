-- ===== src/Inventory/Reservations/Refused.antt =====
-- What becomes of a reservation that is asked for (`reserve` of app/services/inventory.py): its
-- movement reads `transaction_date`, which a reservation does not have.
use cestos_oversight.Base.{◌≡◌, refl, none, false}
use cestos_oversight.Base.Int.{ℤ}
use cestos_oversight.Base.Decimal.{Decimal}
use cestos_oversight.Base.Action.{succeeds, Error, or_raise}
use cestos_oversight.Base.Never.{Never, Never-first, Never-rest}
use cestos_oversight.Inventory.Model.{Db, Movement, Reservation}
use cestos_oversight.Inventory.References.{Env}
use cestos_oversight.Inventory.Ledger.{transaction, Moved, of_reservation}
use cestos_oversight.Inventory.Reservations.{ReservationCreate, reserve}

or_raise-Never : {S A : Type 0} (e : Error) → Never (or_raise {S = S} {A = A} none e)
unfolding or_raise
or_raise-Never e = record { at = λ s. refl }

module _ (column_8 : Decimal → Decimal) (env : Env) where
  -- No movement of a reservation is ever recorded.
  transaction-Never :
      (r : Reservation) (line : Moved) (kind : Movement) (cost : Decimal) (q : ℤ)
      → Never (transaction column_8 env (of_reservation r) line kind cost q)
  unfolding transaction
  transaction-Never r line kind cost q = search (Never-first, Never-rest, or_raise-Never) depth 8

  reserve-Never : (body : ReservationCreate) → Never (reserve column_8 env body)
  unfolding reserve
  reserve-Never body = search (Never-first, Never-rest, transaction-Never) depth 30

  -- No reservation is ever made: whatever is asked for, and whatever the stock, the call fails.
  pub reserve_fails :
      (body : ReservationCreate) (db : Db) → succeeds (reserve column_8 env body db) ≡ false
  reserve_fails body db = (reserve-Never body).at db
