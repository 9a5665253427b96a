-- ===== src/Inventory/Tracking.antt =====
-- Lots and serial numbers (`tracked` of app/services/inventory.py): what a receipt creates, and
-- the checks on the lot and the serial number of a movement.
use cestos_oversight.Base.{
  ℕ, Option, none, some, [], ◌∷◌, ◌++◌, Bool, true, false, not, ◌&&◌, ◌||◌, ◌==◌, String, ltb,
  if◌then◌else◌, same_id, is_set, get_or, find, any,
}
use cestos_oversight.Base.Action.{
  Action, validation, conflict, pure, gets, modify, raise_if, raise, ◌>>=◌, ◌>>◌,
}
use cestos_oversight.Inventory.Model.{
  Item, Tracking, Lot, LotStatus, Serial, SerialStatus, Line, Document, Db,
}
use text.Mathlib.Text.{◌==◌ as same_text}
use cestos_oversight.Inventory.References.{Env, ref, lot_row, serial_row}
use cestos_oversight.Inventory.Ledger.{new_id}

is_batch : Tracking → Bool
is_batch Tracking.batch = true
is_batch _ = false

is_serialized : Tracking → Bool
is_serialized Tracking.serialized = true
is_serialized _ = false

unfoldable pub needs_lot : Item → Bool
unfolding is_batch
needs_lot item =
    item.requires_batch_tracking || item.requires_expiry_tracking || is_batch item.tracking_method

unfoldable pub needs_serial : Item → Bool
unfolding is_serialized
needs_serial item = item.requires_serial_tracking || is_serialized item.tracking_method

-- The truth of an optional text.
unfoldable pub is_given : Option String → Bool
is_given none = false
is_given (some s) = not (same_text s "")

unfoldable pub is_lot_active : LotStatus → Bool
is_lot_active LotStatus.active_lot = true
is_lot_active LotStatus.unavailable_lot = false

unfoldable pub is_in_stock : SerialStatus → Bool
is_in_stock SerialStatus.in_stock = true
is_in_stock _ = false

is_reserved : SerialStatus → Bool
is_reserved SerialStatus.reserved_serial = true
is_reserved _ = false

-- The lot of a received line that names none: the one with the line's number, or a new one.
unfoldable pub join_lot : Item → Line → String → Option Lot → Action Db ℕ
join_lot item line number (some lot) = do
  raise_if (is_set line.expiry_date && not (same_id lot.expiry_date line.expiry_date))
      (conflict "Lot expiry conflicts with existing batch")
  pure lot.id
join_lot item line number none = do
  id ← new_id
  modify (λ db. record db {
    lots =
        db.lots
        ++ record {
          id = id;
          item_id = item.id;
          lot_number = number;
          expiry_date = line.expiry_date;
          status = LotStatus.active_lot;
        }
          ∷ [];
  })
  pure id

unfoldable pub line_lot : Item → Line → Option ℕ → Action Db Line
unfolding is_given
line_lot item line (some id) = pure line
line_lot item line none = do
  raise_if (not (is_given line.lot_number)) (validation "A lot is required")
  let number = get_or line.lot_number ""
  found ←
      gets
        (λ db. find (λ (l : Lot). (l.item_id == item.id) && same_text l.lot_number number) db.lots)
  id ← join_lot item line number found
  pure (record line { lot_id = some id })

unfoldable pub received_lot : Item → Line → Action Db Line
unfolding needs_lot
received_lot item line = if needs_lot item then line_lot item line line.lot_id else pure line

-- The new serial number of a received line.
unfoldable pub received_serial : Item → Document → Line → Action Db Line
unfolding needs_serial is_given
received_serial item doc line =
    if needs_serial item
    then (do
      raise_if (not (is_given line.serial_number))
          (validation "Serial number is required for receipt")
      let number = get_or line.serial_number ""
      known ← gets (λ db.
          any (λ (s : Serial). (s.item_id == item.id) && same_text s.serial_number number)
            db.serials)
      raise_if known (conflict "Serial has already been received")
      id ← new_id
      modify (λ db. record db {
        serials =
            db.serials
            ++ record {
              id = id;
              item_id = item.id;
              serial_number = number;
              lot_id = line.lot_id;
              current_store_id = doc.store_id;
              current_bin_id = line.bin_id;
              assigned_asset_id = none;
              status = SerialStatus.in_stock;
            }
              ∷ [];
      })
      pure (record line { serial_id = some id }))
    else pure line

unfoldable pub check_lot : Env → Item → Bool → Option ℕ → Action Db (Unit {0})
unfolding needs_lot is_lot_active
check_lot env item allow_unavailable none =
    raise_if (needs_lot item) (validation "Select a lot for this item")
check_lot env item allow_unavailable (some id) = do
  lot ← ref (lot_row id)
  raise_if (not (lot.item_id == item.id)) (validation "Lot belongs to another item")
  raise_if (item.requires_expiry_tracking && not (is_set lot.expiry_date))
      (validation "Expiry date is required")
  raise_if
      (not allow_unavailable
        && (ltb (get_or lot.expiry_date env.today) env.today || not (is_lot_active lot.status)))
      (conflict "Lot is expired or unavailable")

-- A serial number must be in stock, or reserved where the movement fulfils a reservation.
unfoldable pub check_serial_row :
    Item → Option ℕ → Bool → Bool → Bool → Serial → Action Db (Unit {0})
unfolding is_in_stock is_reserved
check_serial_row item lot_id receipt allow_unavailable has_reservation serial = do
  raise_if (not (serial.item_id == item.id) || not (same_id serial.lot_id lot_id))
      (validation "Serial item or lot does not match")
  raise_if
      (not receipt
        && not allow_unavailable
        && not (is_in_stock serial.status)
        && not (has_reservation && is_reserved serial.status))
      (conflict "Serial is not available")

unfoldable pub check_serial_id :
    Item → Option ℕ → Bool → Bool → Bool → Option ℕ → Action Db (Unit {0})
unfolding check_serial_row
check_serial_id item lot_id receipt allow_unavailable has_reservation none =
    raise (validation "Select a serial number")
check_serial_id item lot_id receipt allow_unavailable has_reservation (some id) = do
  serial ← ref (serial_row id)
  check_serial_row item lot_id receipt allow_unavailable has_reservation serial

unfoldable pub check_serial : Item → Option ℕ → Bool → Bool → Bool → Option ℕ → Action Db (Unit {0})
unfolding needs_serial
check_serial item lot_id receipt allow_unavailable has_reservation serial_id =
    if needs_serial item
    then check_serial_id item lot_id receipt allow_unavailable has_reservation serial_id
    else pure tt

-- `tracked` on a line of a document; the line comes back with its lot and serial number.
unfoldable pub tracked : Env → Item → Line → Document → Bool → Bool → Action Db Line
tracked env item line doc receipt allow_unavailable = do
  with_lot ← if receipt then received_lot item line else pure line
  with_serial ← if receipt then received_serial item doc with_lot else pure with_lot
  check_lot env item allow_unavailable with_serial.lot_id
  check_serial item with_serial.lot_id receipt allow_unavailable (is_set doc.reservation_id)
      with_serial.serial_id
  pure with_serial
