-- ===== src/Inventory/Examples/Reversed.antt =====
-- A sample reversal: the receipt of the bags.
use mathlib.Core.Path.{subst}
use cestos_oversight.Base.{◌≡◌, refl, none, some, get_or}
use cestos_oversight.Base.Int.{pos, ◌-ℤ◌}
use cestos_oversight.Base.Decimal.{scaled}
use cestos_oversight.Base.Action.{Result, ok, err, ◌>>=◌}
use cestos_oversight.Base.Keeps.{After}
use cestos_oversight.Inventory.Model.{Transaction, Db, Kind, Movement, reversing}
use cestos_oversight.Inventory.Ledger.{balance_at}
use cestos_oversight.Inventory.Ledger.Projection.{IsConsistent, Field, balance_field, total}
use cestos_oversight.Inventory.PostLine.{PostAction}
use cestos_oversight.Inventory.Documents.{action}
use cestos_oversight.Inventory.Statuses.{moving}
use cestos_oversight.Inventory.Reversals.{reverse, transaction_row, reversal_row}
use cestos_oversight.Inventory.Reversals.Restored.{entries_of, reverse_restores}
use cestos_oversight.Inventory.Kept.Service.{action-IsConsistent}
use cestos_oversight.Inventory.Kept.Reversed.{reverse-IsConsistent}
use cestos_oversight.Inventory.Examples.{
  keep_places, env, left_by, received, drafted, store_bucket, no_body, receipt_succeeds,
  drafted-IsConsistent,
}

abbrev blank : Transaction
blank = record {
  id = 0;
  transaction_number = 0;
  posting_key = reversing 0;
  transaction_type = Movement.reversal;
  item_id = 0;
  normalized_quantity = pos 0;
  from_store_id = none;
  to_store_id = none;
  from_bin_id = none;
  to_bin_id = none;
  lot_id = none;
  serial_id = none;
  reference_id = 0;
  unit_cost = scaled 0 (pos 0);
  total_cost = pos 0;
  reversal_of_id = none;
  created_at = 0;
}

received-IsConsistent : IsConsistent received
received-IsConsistent = subst (After IsConsistent) receipt_succeeds (
    action-IsConsistent keep_places env Kind.receipts no_body 10 (moving PostAction.post) drafted
      drafted-IsConsistent)

-- The movement of the receipt, which drew the identifier 100.
abbrev movement : Transaction
movement = get_or (transaction_row 100 received) blank

abbrev returned : Result (Transaction × Db) → Transaction
returned (ok r) = r.0
returned (err _) = blank

abbrev reversed : Db
reversed = left_by received (reverse keep_places env 100 received)

movement_found : transaction_row 100 received ≡ some movement
unfolding cestos_oversight.Inventory.Documents.action ◌>>=◌
    cestos_oversight.Inventory.References.ref cestos_oversight.Inventory.References.document_row
    cestos_oversight.Inventory.References.same_kind
    cestos_oversight.Inventory.References.validate_refs cestos_oversight.Inventory.Documents.perform
    cestos_oversight.Inventory.Statuses.may_post cestos_oversight.Inventory.Statuses.is_empty
    cestos_oversight.Inventory.DocumentLines.post_lines
    cestos_oversight.Inventory.Statuses.mark_posted cestos_oversight.Inventory.Statuses.is_done
    cestos_oversight.Inventory.PostLine.post_line cestos_oversight.Inventory.PostLine.average_cost
    cestos_oversight.Inventory.PostLine.line_serial
    cestos_oversight.Inventory.PostLine.check_location cestos_oversight.Inventory.PostLine.post_kind
    cestos_oversight.Inventory.PostLine.finish cestos_oversight.Inventory.Quantity.base_quantity
    cestos_oversight.Inventory.Receipts.post_receipt cestos_oversight.Inventory.Tracking.tracked
    cestos_oversight.Inventory.Tracking.received_lot
    cestos_oversight.Inventory.Tracking.received_serial
    cestos_oversight.Inventory.Tracking.check_lot cestos_oversight.Inventory.Tracking.check_serial
    cestos_oversight.Inventory.Ledger.bucket cestos_oversight.Inventory.Ledger.effect
    cestos_oversight.Inventory.Ledger.audit cestos_oversight.Inventory.Ledger.transaction
    cestos_oversight.Inventory.Posting.write_serial cestos_oversight.Inventory.Model.same_key
    cestos_oversight.Base.Decimal.◌=ᵈ◌ cestos_oversight.Base.Decimal.quantize
    cestos_oversight.Base.Decimal.◌*ᵈ◌ cestos_oversight.Base.Decimal.◌+ᵈ◌
    cestos_oversight.Base.Decimal.◌/ᵈ◌ cestos_oversight.Base.Int.◌-ℤ◌
    cestos_oversight.Inventory.Reversals.reverse cestos_oversight.Inventory.Reversals.reverse_once
    cestos_oversight.Inventory.Reversals.reverse_new
    cestos_oversight.Inventory.Reversals.reverse_entries
    cestos_oversight.Inventory.Reversals.check_issue
    cestos_oversight.Inventory.Reversals.reversed_serial
    cestos_oversight.Inventory.Ledger.add_transaction cestos_oversight.Inventory.Ledger.new_id
    cestos_oversight.Inventory.Ledger.next_transaction_number cestos_oversight.Base.Int.neg_ℤ
movement_found = refl

movement_unreversed : reversal_row 100 received ≡ none
unfolding cestos_oversight.Inventory.Documents.action ◌>>=◌
    cestos_oversight.Inventory.References.ref cestos_oversight.Inventory.References.document_row
    cestos_oversight.Inventory.References.same_kind
    cestos_oversight.Inventory.References.validate_refs cestos_oversight.Inventory.Documents.perform
    cestos_oversight.Inventory.Statuses.may_post cestos_oversight.Inventory.Statuses.is_empty
    cestos_oversight.Inventory.DocumentLines.post_lines
    cestos_oversight.Inventory.Statuses.mark_posted cestos_oversight.Inventory.Statuses.is_done
    cestos_oversight.Inventory.PostLine.post_line cestos_oversight.Inventory.PostLine.average_cost
    cestos_oversight.Inventory.PostLine.line_serial
    cestos_oversight.Inventory.PostLine.check_location cestos_oversight.Inventory.PostLine.post_kind
    cestos_oversight.Inventory.PostLine.finish cestos_oversight.Inventory.Quantity.base_quantity
    cestos_oversight.Inventory.Receipts.post_receipt cestos_oversight.Inventory.Tracking.tracked
    cestos_oversight.Inventory.Tracking.received_lot
    cestos_oversight.Inventory.Tracking.received_serial
    cestos_oversight.Inventory.Tracking.check_lot cestos_oversight.Inventory.Tracking.check_serial
    cestos_oversight.Inventory.Ledger.bucket cestos_oversight.Inventory.Ledger.effect
    cestos_oversight.Inventory.Ledger.audit cestos_oversight.Inventory.Ledger.transaction
    cestos_oversight.Inventory.Posting.write_serial cestos_oversight.Inventory.Model.same_key
    cestos_oversight.Base.Decimal.◌=ᵈ◌ cestos_oversight.Base.Decimal.quantize
    cestos_oversight.Base.Decimal.◌*ᵈ◌ cestos_oversight.Base.Decimal.◌+ᵈ◌
    cestos_oversight.Base.Decimal.◌/ᵈ◌ cestos_oversight.Base.Int.◌-ℤ◌
    cestos_oversight.Inventory.Reversals.reverse cestos_oversight.Inventory.Reversals.reverse_once
    cestos_oversight.Inventory.Reversals.reverse_new
    cestos_oversight.Inventory.Reversals.reverse_entries
    cestos_oversight.Inventory.Reversals.check_issue
    cestos_oversight.Inventory.Reversals.reversed_serial
    cestos_oversight.Inventory.Ledger.add_transaction cestos_oversight.Inventory.Ledger.new_id
    cestos_oversight.Inventory.Ledger.next_transaction_number cestos_oversight.Base.Int.neg_ℤ
movement_unreversed = refl

reverse_succeeds :
    reverse keep_places env 100 received
    ≡ ok (returned (reverse keep_places env 100 received), reversed)
unfolding cestos_oversight.Inventory.Documents.action ◌>>=◌
    cestos_oversight.Inventory.References.ref cestos_oversight.Inventory.References.document_row
    cestos_oversight.Inventory.References.same_kind
    cestos_oversight.Inventory.References.validate_refs cestos_oversight.Inventory.Documents.perform
    cestos_oversight.Inventory.Statuses.may_post cestos_oversight.Inventory.Statuses.is_empty
    cestos_oversight.Inventory.DocumentLines.post_lines
    cestos_oversight.Inventory.Statuses.mark_posted cestos_oversight.Inventory.Statuses.is_done
    cestos_oversight.Inventory.PostLine.post_line cestos_oversight.Inventory.PostLine.average_cost
    cestos_oversight.Inventory.PostLine.line_serial
    cestos_oversight.Inventory.PostLine.check_location cestos_oversight.Inventory.PostLine.post_kind
    cestos_oversight.Inventory.PostLine.finish cestos_oversight.Inventory.Quantity.base_quantity
    cestos_oversight.Inventory.Receipts.post_receipt cestos_oversight.Inventory.Tracking.tracked
    cestos_oversight.Inventory.Tracking.received_lot
    cestos_oversight.Inventory.Tracking.received_serial
    cestos_oversight.Inventory.Tracking.check_lot cestos_oversight.Inventory.Tracking.check_serial
    cestos_oversight.Inventory.Ledger.bucket cestos_oversight.Inventory.Ledger.effect
    cestos_oversight.Inventory.Ledger.audit cestos_oversight.Inventory.Ledger.transaction
    cestos_oversight.Inventory.Posting.write_serial cestos_oversight.Inventory.Model.same_key
    cestos_oversight.Base.Decimal.◌=ᵈ◌ cestos_oversight.Base.Decimal.quantize
    cestos_oversight.Base.Decimal.◌*ᵈ◌ cestos_oversight.Base.Decimal.◌+ᵈ◌
    cestos_oversight.Base.Decimal.◌/ᵈ◌ cestos_oversight.Base.Int.◌-ℤ◌
    cestos_oversight.Inventory.Reversals.reverse cestos_oversight.Inventory.Reversals.reverse_once
    cestos_oversight.Inventory.Reversals.reverse_new
    cestos_oversight.Inventory.Reversals.reverse_entries
    cestos_oversight.Inventory.Reversals.check_issue
    cestos_oversight.Inventory.Reversals.reversed_serial
    cestos_oversight.Inventory.Ledger.add_transaction cestos_oversight.Inventory.Ledger.new_id
    cestos_oversight.Inventory.Ledger.next_transaction_number cestos_oversight.Base.Int.neg_ℤ
reverse_succeeds = refl

reverse-IsConsistent_example : After IsConsistent (reverse keep_places env 100 received)
reverse-IsConsistent_example =
    reverse-IsConsistent keep_places env 100 received received-IsConsistent

reverse_restores_example :
    balance_field Field.on_hand (balance_at reversed.balances store_bucket)
    ≡ balance_field Field.on_hand (balance_at received.balances store_bucket)
      -ℤ total Field.on_hand store_bucket (entries_of movement.id received.entries)
reverse_restores_example =
    reverse_restores keep_places env 100 movement (returned (reverse keep_places env 100 received))
      received reversed Field.on_hand store_bucket received-IsConsistent movement_found
      movement_unreversed reverse_succeeds
