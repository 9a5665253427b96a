-- ===== src/Inventory/Reservations.antt =====
-- `reserve` and `release` (app/services/inventory.py).
pub mod Refused
use cestos_oversight.Base.{
  ℕ, Option, none, some, [], ◌∷◌, Bool, false, not, ◌&&◌, ◌||◌, leb, if◌then◌else◌, same_id, is_set,
  get_or,
}
use cestos_oversight.Base.Int.{ℤ, pos, ◌-ℤ◌, ◌=ℤ◌, neg_ℤ, zero_ℤ}
use cestos_oversight.Base.Decimal.{Decimal, scaled}
use cestos_oversight.Base.Table.{put}
use cestos_oversight.Base.Action.{Action, validation, pure, modify, raise_if, ◌>>=◌, ◌>>◌}
use cestos_oversight.Counters.{EntityType, increment}
use cestos_oversight.Inventory.Model.{
  Key, Serial, SerialStatus, Reservation, ReservationStatus, Movement, no_deltas, Db,
}
use cestos_oversight.Inventory.References.{Env, ref, serial_row, validate_refs, no_refs}
use cestos_oversight.Inventory.Quantity.{base_quantity}
use cestos_oversight.Inventory.Ledger.{
  bucket, effect, audit, transaction, new_id, of_reservation, moved_by_reservation,
}
use cestos_oversight.Inventory.Tracking.{check_lot, check_serial}
use cestos_oversight.Inventory.Posting.{write_serial}
use cestos_oversight.Inventory.Issues.{is_active_reservation}

-- `InventoryReservationCreate`
pub record ReservationCreate : Type 0 where
  pub item_id : ℕ
  pub store_id : ℕ
  pub bin_id : Option ℕ
  pub lot_id : Option ℕ
  pub serial_id : Option ℕ
  pub project_id : Option ℕ
  pub asset_id : Option ℕ
  pub quantity : ℤ
  pub expires_at : Option ℕ

-- The new row of a reservation.
abbrev pub record_of : ℕ → ReservationCreate → Reservation
record_of id body = record {
  id = id;
  item_id = body.item_id;
  store_id = body.store_id;
  bin_id = body.bin_id;
  lot_id = body.lot_id;
  serial_id = body.serial_id;
  project_id = body.project_id;
  asset_id = body.asset_id;
  quantity = body.quantity;
  fulfilled_quantity = zero_ℤ;
  expires_at = body.expires_at;
  status = ReservationStatus.active_reservation;
}

abbrev pub reserved_key : Reservation → Key
reserved_key r = record {
  item_id = r.item_id;
  store_id = r.store_id;
  bin_id = r.bin_id;
  lot_id = r.lot_id;
}

-- The serial number of a reservation stands where the reservation does, and is one unit.
unfoldable pub reserve_serial : Reservation → ℤ → Option ℕ → Action Db (Unit {0})
reserve_serial row q none = pure tt
reserve_serial row q (some id) = do
  serial ← ref (serial_row id)
  raise_if
      (not (q =ℤ pos 10000)
        || not (same_id serial.current_store_id (some row.store_id))
        || not (same_id serial.current_bin_id row.bin_id))
      (validation "Serial does not match reservation location or quantity")
  write_serial (some serial) (λ s. record s { status = SerialStatus.reserved_serial })

unfoldable pub free_serial : Option ℕ → Action Db (Unit {0})
free_serial none = pure tt
free_serial (some id) = do
  serial ← ref (serial_row id)
  write_serial (some serial) (λ s. record s { status = SerialStatus.in_stock })

-- The status of a reservation that is released.
released_status : Env → Bool → Reservation → ReservationStatus
released_status env is_cancel row =
    if is_cancel
    then ReservationStatus.cancelled_reservation
    else if is_set row.expires_at && leb (get_or row.expires_at 0) env.now
    then ReservationStatus.expired
    else ReservationStatus.released

module _ (column_8 : Decimal → Decimal) (env : Env) where
  -- `reserve`
  unfoldable pub reserve : ReservationCreate → Action Db ℕ
  unfolding reserve_serial
  reserve body = do
    validate_refs env (record no_refs {
      item_id = some body.item_id;
      store_id = some body.store_id;
      bin_id = body.bin_id;
      lot_id = body.lot_id;
      serial_id = body.serial_id;
      project_id = body.project_id;
      asset_id = body.asset_id;
    })
    item ← ref (λ db. db.items body.item_id)
    raise_if (is_set body.expires_at && leb (get_or body.expires_at 0) env.now)
        (validation "Reservation expiry must be in the future")
    q ← base_quantity item item.base_unit_id (scaled 4 body.quantity)
    modify (λ db. record db {
      counters = increment env.organization_id EntityType.inventory_reservation db.counters;
    })
    id ← new_id
    let row = record_of id body
    modify (λ db. record db { reservations = put id row db.reservations })
    check_lot env item false row.lot_id
    check_serial item row.lot_id false false false row.serial_id
    bucket (reserved_key row)
    tx ←
        transaction column_8 env (of_reservation row) (moved_by_reservation row)
          Movement.reservation (scaled 0 zero_ℤ) q
    effect tx.id (reserved_key row) (record no_deltas { quantity_reserved = q })
    reserve_serial row q row.serial_id
    audit ("reservation_created" ∷ []) id
    pure id

  -- The release of an active reservation.
  unfoldable pub release_active : ℕ → Bool → Reservation → Action Db (Unit {0})
  unfolding released_status free_serial
  release_active id is_cancel row = do
    let remaining = row.quantity -ℤ row.fulfilled_quantity
    tx ←
        transaction column_8 env (of_reservation row) (moved_by_reservation row)
          Movement.reservation_release (scaled 0 zero_ℤ) remaining
    bucket (reserved_key row)
    effect tx.id (reserved_key row) (record no_deltas { quantity_reserved = neg_ℤ remaining })
    modify (λ db. record db {
      reservations =
          put id (record row { status = released_status env is_cancel row }) db.reservations;
    })
    free_serial row.serial_id
    audit ("reservation_released" ∷ []) id

  -- `release`; a reservation that is no longer active is returned as it is.
  unfoldable pub release : ℕ → Bool → Action Db (Unit {0})
  release id is_cancel = do
    row ← ref (λ db. db.reservations id)
    if is_active_reservation row.status then release_active id is_cancel row else pure tt
