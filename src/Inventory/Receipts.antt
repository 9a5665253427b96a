-- ===== src/Inventory/Receipts.antt =====
-- The `receipts` branch of `post_line` (app/services/inventory.py).
use cestos_oversight.Base.Decimal.{Decimal, scaled, ◌*ᵈ◌, ◌/ᵈ◌}
use cestos_oversight.Base.Action.{Action, validation, pure, or_raise, ◌>>=◌, ◌>>◌}
use cestos_oversight.Inventory.Model.{Purpose, receipt_of, no_deltas, Db}
use cestos_oversight.Inventory.Ledger.{effect, transaction, of_document, of_line}
use cestos_oversight.Inventory.Posting.{Posting, Posted, key_of, worth}

-- A purpose that is no receipt's is posted as another receipt.
unfoldable pub receipt_purpose : Purpose → Purpose
receipt_purpose Purpose.opening_balance = Purpose.opening_balance
receipt_purpose Purpose.purchase_receipt = Purpose.purchase_receipt
receipt_purpose _ = Purpose.other_receipt

unfoldable pub post_receipt : (Decimal → Decimal) → Posting → Action Db Posted
unfolding receipt_purpose
post_receipt column_8 p = do
  unit_cost ← or_raise p.line.unit_cost (validation "Receipt unit cost is required")
  let cost = unit_cost *ᵈ scaled 4 p.line.quantity /ᵈ scaled 4 p.q
  tx ←
      transaction column_8 p.env (of_document p.doc) (of_line p.line)
        (receipt_of (receipt_purpose p.doc.purpose)) cost p.q
  effect tx.id (key_of p)
      (record no_deltas { quantity_on_hand = p.q; inventory_value = worth p.q cost })
  pure (record { doc = p.doc; cost = cost; q = p.q; tx = tx })
