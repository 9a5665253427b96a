-- ===== src/Inventory/Kept/Lines.antt =====
-- The posting of a line keep every balance a covered projection of the ledger
-- (app/services/inventory.py).
use cestos_oversight.Base.{ℕ, Option, none, some}
use cestos_oversight.Base.Decimal.{Decimal}
use cestos_oversight.Base.Keeps.{Keeps}
use cestos_oversight.Inventory.Model.{Serial, Kind, Document, Line}
use cestos_oversight.Inventory.References.{Env}
use cestos_oversight.Inventory.Posting.{Posting, Posted}
use cestos_oversight.Inventory.PostLine.{
  PostAction, post_line, post_kind, line_serial, check_location, finish,
}
use cestos_oversight.Inventory.Ledger.Projection.{IsConsistent}
use cestos_oversight.Inventory.Kept.Branches.{
  post_receipt-Keeps, post_issue-Keeps, post_return-Keeps, post_dispatch-Keeps, post_arrival-Keeps,
  posting_rules,
}
use cestos_oversight.Inventory.Kept.Adjusted.{post_adjustment-Keeps}
use cestos_oversight.Inventory.Kept.Tracked.{tracked-Keeps}

pub post_kind-Keeps :
    (column_8 : Decimal → Decimal) (kind : Kind) (a : PostAction) (p : Posting)
    → Keeps IsConsistent (post_kind column_8 kind a p)
unfolding post_kind
post_kind-Keeps column_8 Kind.receipts a p = search (posting_rules, post_receipt-Keeps)
post_kind-Keeps column_8 Kind.issues a p = search (posting_rules, post_issue-Keeps)
post_kind-Keeps column_8 Kind.returns a p = search (posting_rules, post_return-Keeps)
post_kind-Keeps column_8 Kind.transfers PostAction.dispatch p =
    search (posting_rules, post_dispatch-Keeps)
post_kind-Keeps column_8 Kind.transfers PostAction.receive p =
    search (posting_rules, post_arrival-Keeps)
post_kind-Keeps column_8 Kind.transfers PostAction.post p = search posting_rules
post_kind-Keeps column_8 Kind.adjustments a p = post_adjustment-Keeps column_8 p
post_kind-Keeps column_8 Kind.stock_counts a p = post_adjustment-Keeps column_8 p
post_kind-Keeps column_8 Kind.requests a p = search posting_rules

pub line_serial-Keeps : (id : Option ℕ) → Keeps IsConsistent (line_serial id)
unfolding line_serial
line_serial-Keeps none = search posting_rules
line_serial-Keeps (some id) = search posting_rules

pub check_location-Keeps :
    (source : ℕ) (bin : Option ℕ) (s : Option Serial)
    → Keeps IsConsistent (check_location source bin s)
unfolding check_location
check_location-Keeps source bin none = search posting_rules
check_location-Keeps source bin (some s) = search posting_rules

pub finish-Keeps :
    (doc : Document) (line : Line) (r : Option Posted) → Keeps IsConsistent (finish doc line r)
unfolding finish
finish-Keeps doc line none = search posting_rules
finish-Keeps doc line (some r) = search posting_rules

pub post_line-Keeps :
    (column_8 : Decimal → Decimal) (env : Env) (kind : Kind) (a : PostAction) (doc : Document)
    (line : Line)
    → Keeps IsConsistent (post_line column_8 env kind a doc line)
unfolding post_line
post_line-Keeps column_8 env kind a doc line =
    search
      (
        posting_rules, tracked-Keeps, line_serial-Keeps, check_location-Keeps, post_kind-Keeps,
        finish-Keeps,
      )
      depth 24
