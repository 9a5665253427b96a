-- ===== src/Inventory/Kept/Branches.antt =====
-- Receipts, issues, returns and transfers keep every balance a covered projection of the ledger
-- (app/services/inventory.py).
use cestos_oversight.Base.{ℕ, Option, none, some}
use cestos_oversight.Base.Decimal.{Decimal}
use cestos_oversight.Base.Keeps.{Keeps}
use cestos_oversight.Inventory.Model.{Item, Serial}
use cestos_oversight.Inventory.Quantity.{base_quantity, normalize}
use cestos_oversight.Inventory.Posting.{Posting, write_serial}
use cestos_oversight.Inventory.Receipts.{post_receipt}
use cestos_oversight.Inventory.Issues.{post_issue, use_reservation, use_request, take_custody}
use cestos_oversight.Inventory.Returns.{post_return, returned_serial}
use cestos_oversight.Inventory.Transfers.{post_dispatch, post_arrival}
use cestos_oversight.Inventory.Ledger.Projection.{IsConsistent}
use cestos_oversight.Inventory.Ledger.Kept.{
  frame_rules, bucket-Keeps, effect-Keeps, audit-Keeps, new_id-Keeps, transaction-Keeps, ref-Keeps,
  validate_refs-Keeps,
}

pub ruleset ledger_rules = (
  frame_rules, bucket-Keeps, effect-Keeps, audit-Keeps, new_id-Keeps, transaction-Keeps, ref-Keeps,
  validate_refs-Keeps,
)

pub normalize-Keeps :
    (item : Item) (unit : ℕ) (q : Decimal) → Keeps IsConsistent (normalize item unit q)
unfolding normalize
normalize-Keeps item unit q = search ledger_rules

pub base_quantity-Keeps :
    (item : Item) (unit : ℕ) (q : Decimal) → Keeps IsConsistent (base_quantity item unit q)
unfolding base_quantity
base_quantity-Keeps item unit q = search (ledger_rules, normalize-Keeps) depth 12

pub write_serial-Keeps :
    (s : Option Serial) (f : Serial → Serial) → Keeps IsConsistent (write_serial s f)
unfolding write_serial
write_serial-Keeps none f = search ledger_rules
write_serial-Keeps (some s) f = search ledger_rules

pub post_receipt-Keeps :
    (column_8 : Decimal → Decimal) (p : Posting) → Keeps IsConsistent (post_receipt column_8 p)
unfolding post_receipt
post_receipt-Keeps column_8 p = search ledger_rules depth 12

pub use_reservation-Keeps :
    (p : Posting) (id : Option ℕ) → Keeps IsConsistent (use_reservation p id)
unfolding use_reservation
use_reservation-Keeps p none = search ledger_rules
use_reservation-Keeps p (some id) = search ledger_rules depth 12

pub use_request-Keeps : (p : Posting) (id : Option ℕ) → Keeps IsConsistent (use_request p id)
unfolding use_request
use_request-Keeps p none = search ledger_rules
use_request-Keeps p (some id) = search ledger_rules depth 14

pub take_custody-Keeps : (p : Posting) → Keeps IsConsistent (take_custody p)
unfolding take_custody
take_custody-Keeps p = search ledger_rules

pub ruleset posting_rules = (
  ledger_rules, base_quantity-Keeps, write_serial-Keeps, use_reservation-Keeps, use_request-Keeps,
  take_custody-Keeps,
)

pub post_issue-Keeps :
    (column_8 : Decimal → Decimal) (p : Posting) → Keeps IsConsistent (post_issue column_8 p)
unfolding post_issue
post_issue-Keeps column_8 p = search posting_rules depth 20

pub returned_serial-Keeps :
    (p : Posting) (s : Option Serial) → Keeps IsConsistent (returned_serial p s)
unfolding returned_serial
returned_serial-Keeps p none = search posting_rules
returned_serial-Keeps p (some s) = search posting_rules

pub post_return-Keeps :
    (column_8 : Decimal → Decimal) (p : Posting) → Keeps IsConsistent (post_return column_8 p)
unfolding post_return
post_return-Keeps column_8 p = search (posting_rules, returned_serial-Keeps) depth 30

pub post_dispatch-Keeps :
    (column_8 : Decimal → Decimal) (p : Posting) → Keeps IsConsistent (post_dispatch column_8 p)
unfolding post_dispatch
post_dispatch-Keeps column_8 p = search posting_rules depth 12

pub post_arrival-Keeps :
    (column_8 : Decimal → Decimal) (p : Posting) → Keeps IsConsistent (post_arrival column_8 p)
unfolding post_arrival
post_arrival-Keeps column_8 p = search posting_rules depth 24
