-- ===== src/Inventory/Returns.antt =====
-- The `returns` branch of `post_line` (app/services/inventory.py).
use cestos_oversight.Base.{
  ℕ, Option, none, some, List, [], ◌∷◌, Bool, true, false, not, ◌&&◌, ◌||◌, ◌==◌, if◌then◌else◌,
  same_id, update_first, keep,
}
use cestos_oversight.Base.Int.{ℤ, ◌+ℤ◌, ltb_ℤ, ◌=ℤ◌, zero_ℤ}
use cestos_oversight.Base.Decimal.{Decimal, scaled, ◌+ᵈ◌, ◌/ᵈ◌}
use cestos_oversight.Base.Action.{
  Action, validation, conflict, pure, gets, or_raise, modify, raise_if, ◌>>=◌, ◌>>◌,
}
use cestos_oversight.Inventory.Model.{
  Serial, SerialStatus, Status, Kind, Condition, Custody, Movement, Transaction, no_deltas, Db,
}
use cestos_oversight.Inventory.References.{ref, document_row}
use cestos_oversight.Inventory.Ledger.{effect, transaction, of_document, of_line, movement_code}
use cestos_oversight.Inventory.Posting.{Posting, Posted, key_of, worth, write_serial}

unfoldable pub is_damaged : Condition → Bool
is_damaged Condition.good = false
is_damaged Condition.used_serviceable = false
is_damaged Condition.other_condition = true

is_posted : Status → Bool
is_posted Status.posted = true
is_posted _ = false

is_out : SerialStatus → Bool
is_out SerialStatus.issued = true
is_out SerialStatus.installed = true
is_out _ = false

-- The transactions of one type for the line's item, lot and serial number.
matches : Posting → Movement → Transaction → Bool
unfolding movement_code
matches p kind t =
    (t.item_id == p.item.id)
    && same_id t.lot_id p.line.lot_id
    && same_id t.serial_id p.line.serial_id
    && (movement_code t.transaction_type == movement_code kind)

unfoldable pub sum_quantities : List Transaction → ℤ
sum_quantities [] = zero_ℤ
sum_quantities (t ∷ ts) = t.normalized_quantity +ℤ sum_quantities ts

-- The sum from the left, as `sum` computes it.
sum_worth : Decimal → List Transaction → Decimal
sum_worth total [] = total
sum_worth total (t ∷ ts) = sum_worth (total +ᵈ worth t.normalized_quantity t.unit_cost) ts

-- The transaction belongs to a return of the issue.
returns_issue : ℕ → Db → Transaction → Bool
returns_issue issue db t = elim (document_row Kind.returns t.reference_id db) [
  | none ↦ false
  | some d ↦ same_id d.original_issue_id (some issue)
]

-- The movements of the original issue, and those of the returns made of it.
unfoldable pub issued_by : Posting → ℕ → Db → List Transaction
unfolding matches
issued_by p issue db =
    keep (λ t. (t.reference_id == issue) && matches p Movement.issue t) db.transactions

unfoldable pub returned_of : Posting → ℕ → Db → List Transaction
unfolding matches returns_issue
returned_of p issue db =
    keep (λ t. returns_issue issue db t && matches p Movement.return_from_employee t)
      db.transactions

-- The custody row after the return.
unfoldable pub give_back : Posting → Custody → Custody
give_back p c =
    let back = c.returned_quantity +ℤ p.q in
    record c {
      returned_quantity = back;
      condition_at_return = some p.doc.condition;
      is_returned = if back =ℤ c.quantity then true else c.is_returned;
      returned_at = if back =ℤ c.quantity then some p.env.now else c.returned_at;
    }

unfoldable pub returned_serial : Posting → Option Serial → Action Db (Unit {0})
unfolding is_out is_damaged
returned_serial p none = pure tt
returned_serial p (some serial) = do
  raise_if (not (is_out serial.status)) (conflict "Serial has already been returned")
  write_serial (some serial) (λ s. record s {
    status = if is_damaged p.doc.condition then SerialStatus.quarantined else SerialStatus.in_stock;
    current_store_id = some p.source;
    current_bin_id = p.bin_id;
    assigned_asset_id = none;
  })

unfoldable pub post_return : (Decimal → Decimal) → Posting → Action Db Posted
unfolding is_posted sum_quantities sum_worth
post_return column_8 p = do
  issue ← or_raise p.doc.original_issue_id (validation "Return must reference an original issue")
  original ← ref (document_row Kind.issues issue)
  raise_if (not (is_posted original.status)) (conflict "Original issue is not posted")
  original_tx ← gets (issued_by p issue)
  prior ← gets (returned_of p issue)
  let issued = sum_quantities original_tx
  raise_if ((issued =ℤ zero_ℤ) || ltb_ℤ issued (p.q +ℤ sum_quantities prior))
      (conflict "Return exceeds quantity issued")
  let cost = sum_worth (scaled 0 zero_ℤ) original_tx /ᵈ scaled 4 issued
  let doc = record (p.doc) {
    project_id = original.project_id;
    asset_id = original.asset_id;
    employee_id = original.employee_id;
  }
  tx ←
      transaction column_8 p.env (of_document doc) (of_line p.line) Movement.return_from_employee
        cost p.q
  effect tx.id (key_of p) (record no_deltas {
    quantity_on_hand = p.q;
    quantity_quarantined = if is_damaged p.doc.condition then p.q else zero_ℤ;
    inventory_value = worth p.q cost;
  })
  returned_serial p p.serial
  modify (λ db. record db {
    custody =
        update_first
          (λ (c : Custody).
            (c.issue_id == issue)
            && (c.item_id == p.item.id)
            && same_id c.serial_id p.line.serial_id)
          (give_back p) db.custody;
  })
  pure (record { doc = doc; cost = cost; q = p.q; tx = tx })
