-- ===== src/Inventory/Reversals.antt =====
-- `reverse` (app/services/inventory.py): a movement is undone by a movement of its own.
pub mod Restored
use cestos_oversight.Base.{
  ℕ, Option, none, some, List, [], ◌∷◌, Bool, true, false, not, ◌&&◌, ◌||◌, ◌==◌, ltb,
  if◌then◌else◌, same_id, is_set, find, any, keep,
}
use cestos_oversight.Base.Int.{neg_ℤ}
use cestos_oversight.Base.Decimal.{Decimal, neg_ᵈ}
use cestos_oversight.Base.Action.{Action, conflict, pure, gets, raise_if, ◌>>=◌, ◌>>◌}
use cestos_oversight.Inventory.Model.{
  SerialStatus, Kind, Purpose, Movement, receipt_of, reversing, Deltas, LedgerEntry, Transaction,
  Db,
}
use cestos_oversight.Inventory.References.{Env, ref, serial_row, document_row}
use cestos_oversight.Inventory.Ledger.{
  bucket, effect, audit, add_transaction, new_id, next_transaction_number,
}
use cestos_oversight.Inventory.Posting.{write_serial}

-- The types of movement that a reversal undoes.
unfoldable pub is_reversible : Movement → Bool
is_reversible Movement.issue = true
is_reversible (Movement.receipt_of Purpose.opening_balance) = true
is_reversible (Movement.receipt_of Purpose.purchase_receipt) = true
is_reversible (Movement.receipt_of Purpose.other_receipt) = true
is_reversible _ = false

is_issue : Movement → Bool
is_issue Movement.issue = true
is_issue _ = false

abbrev pub transaction_row : ℕ → Db → Option Transaction
transaction_row id db = find (λ (t : Transaction). t.id == id) db.transactions

abbrev pub reversal_row : ℕ → Db → Option Transaction
reversal_row id db = find (λ (t : Transaction). same_id t.reversal_of_id (some id)) db.transactions

-- A movement of the same item that was recorded after this one.
abbrev pub has_later : Transaction → Db → Bool
has_later original db =
    any
      (λ (t : Transaction). (t.item_id == original.item_id) && ltb original.created_at t.created_at)
      db.transactions

-- An issue of a request, of a reservation or of a returnable item comes back by a return.
unfoldable pub check_issue : Transaction → Action Db (Unit {0})
unfolding is_issue
check_issue original =
    if is_issue original.transaction_type
    then (do
      issue ← ref (document_row Kind.issues original.reference_id)
      raise_if (is_set issue.reservation_id || is_set issue.request_id)
          (conflict "Use a return for requested, reserved or returnable issues")
      item ← ref (λ db. db.items original.item_id)
      raise_if item.is_returnable
          (conflict "Use a return for requested, reserved or returnable issues"))
    else pure tt

-- The serial number of the movement, back in its bucket or cancelled.
unfoldable pub reversed_serial : Transaction → Option ℕ → Action Db (Unit {0})
unfolding is_issue
reversed_serial original none = pure tt
reversed_serial original (some id) = do
  serial ← ref (serial_row id)
  if is_issue original.transaction_type
      then write_serial (some serial) (λ s. record s {
        status = SerialStatus.in_stock;
        current_store_id = original.from_store_id;
        current_bin_id = original.from_bin_id;
      })
      else write_serial (some serial) (λ s. record s {
        status = SerialStatus.cancelled_serial;
        current_store_id = none;
        current_bin_id = none;
      })

module _ (column_8 : Decimal → Decimal) where
  -- The opposite of an entry, whose values are read from columns with 8 places.
  unfoldable pub negated : Deltas → Deltas
  negated d = record {
    quantity_on_hand = neg_ℤ d.quantity_on_hand;
    quantity_reserved = neg_ℤ d.quantity_reserved;
    quantity_quarantined = neg_ℤ d.quantity_quarantined;
    quantity_in_transit = neg_ℤ d.quantity_in_transit;
    inventory_value = neg_ᵈ (column_8 d.inventory_value);
    transit_value = neg_ᵈ (column_8 d.transit_value);
  }

  -- The loop over the entries of the movement.
  unfoldable pub reverse_entries : ℕ → List LedgerEntry → Action Db (Unit {0})
  unfolding negated
  reverse_entries id [] = pure tt
  reverse_entries id (entry ∷ entries) = do
    bucket entry.key
    effect id entry.key (negated entry.deltas)
    reverse_entries id entries

  unfoldable pub reverse_new : Env → Transaction → Action Db Transaction
  unfolding is_reversible
  reverse_new env original = do
    raise_if (not (is_reversible original.transaction_type))
        (conflict "Use a return, transfer back or approved adjustment for this movement")
    later ← gets (has_later original)
    raise_if later (conflict "Later movements exist; use a traceable return or approved adjustment")
    check_issue original
    number ← next_transaction_number env
    id ← new_id
    row ← add_transaction (record original {
      id = id;
      transaction_number = number;
      posting_key = reversing original.id;
      transaction_type = Movement.reversal;
      reversal_of_id = some original.id;
      created_at = env.now;
    })
    entries ← gets (λ db. keep (λ (e : LedgerEntry). e.transaction_id == original.id) db.entries)
    reverse_entries row.id entries
    reversed_serial original original.serial_id
    audit ("transaction_reversed" ∷ []) row.id
    pure row

  -- A movement that has been reversed keeps its reversal.
  unfoldable pub reverse_once : Env → Transaction → Option Transaction → Action Db Transaction
  reverse_once env original (some existing) = pure existing
  reverse_once env original none = reverse_new env original

  -- `reverse`
  unfoldable pub reverse : Env → ℕ → Action Db Transaction
  reverse env id = do
    original ← ref (transaction_row id)
    existing ← gets (reversal_row id)
    reverse_once env original existing
