-- ===== src/Inventory/Transfers.antt =====
-- The `transfers` branch of `post_line` (app/services/inventory.py): dispatch and receipt.
use cestos_oversight.Base.{ℕ, Option, none, some, find}
use cestos_oversight.Base.Int.{neg_ℤ}
use cestos_oversight.Base.Decimal.{Decimal, neg_ᵈ}
use cestos_oversight.Base.Action.{Action, conflict, integrity, pure, gets, or_raise, ◌>>=◌, ◌>>◌}
use cestos_oversight.Inventory.Model.{
  SerialStatus, Key, Movement, posting, Transaction, no_deltas, Db,
}
use cestos_oversight.Inventory.References.{validate_refs, no_refs}
use cestos_oversight.Inventory.Ledger.{
  bucket, effect, transaction, of_document, of_line, same_posting,
}
use cestos_oversight.Inventory.Posting.{Posting, Posted, key_of, worth, write_serial}

unfoldable pub post_dispatch : (Decimal → Decimal) → Posting → Action Db Posted
post_dispatch column_8 p = do
  tx ←
      transaction column_8 p.env (of_document p.doc) (of_line p.line) Movement.transfer_out p.cost
        p.q
  effect tx.id (key_of p) (record no_deltas {
    quantity_on_hand = neg_ℤ p.q;
    quantity_in_transit = p.q;
    inventory_value = neg_ᵈ (worth p.q p.cost);
    transit_value = worth p.q p.cost;
  })
  write_serial p.serial (λ s. record s {
    status = SerialStatus.in_transit_serial;
    current_store_id = none;
    current_bin_id = none;
  })
  pure (record { doc = p.doc; cost = p.cost; q = p.q; tx = tx })

-- The bucket that a transfer is received into.
abbrev pub destination_of : Posting → ℕ → Key
destination_of p to_store = record {
  item_id = p.item.id;
  store_id = to_store;
  bin_id = p.line.to_bin_id;
  lot_id = p.line.lot_id;
}

-- The transaction of the dispatch, found by its posting key.
abbrev pub dispatch_row : Posting → Db → Option Transaction
dispatch_row p db =
    find
      (λ (t : Transaction).
        same_posting t.posting_key (posting p.doc.id p.line.id Movement.transfer_out))
      db.transactions

unfoldable pub post_arrival : (Decimal → Decimal) → Posting → Action Db Posted
post_arrival column_8 p = do
  validate_refs p.env (record no_refs { store_id = p.doc.to_store_id; bin_id = p.line.to_bin_id })
  found ← gets (dispatch_row p)
  dispatched ← or_raise found (conflict "Transfer dispatch ledger is missing")
  let cost = dispatched.unit_cost
  tx ← transaction column_8 p.env (of_document p.doc) (of_line p.line) Movement.transfer_in cost p.q
  to_store ← or_raise p.doc.to_store_id integrity
  bucket (destination_of p to_store)
  effect tx.id (key_of p)
      (record no_deltas { quantity_in_transit = neg_ℤ p.q; transit_value = neg_ᵈ (worth p.q cost) })
  effect tx.id (destination_of p to_store)
      (record no_deltas { quantity_on_hand = p.q; inventory_value = worth p.q cost })
  write_serial p.serial (λ s. record s {
    status = SerialStatus.in_stock;
    current_store_id = some to_store;
    current_bin_id = p.line.to_bin_id;
  })
  pure (record { doc = p.doc; cost = cost; q = p.q; tx = tx })
