-- ===== src/Inventory/Kept/Tracked.antt =====
-- The checks of lots and serial numbers keep every balance a covered projection of the ledger
-- (app/services/inventory.py).
use cestos_oversight.Base.{ℕ, Option, none, some, Bool, String}
use cestos_oversight.Base.Keeps.{Keeps}
use cestos_oversight.Inventory.Model.{Item, Lot, Document, Line}
use cestos_oversight.Inventory.References.{Env}
use cestos_oversight.Inventory.Tracking.{
  tracked, received_lot, received_serial, line_lot, join_lot, check_lot, check_serial,
  check_serial_id,
}
use cestos_oversight.Inventory.Ledger.Projection.{IsConsistent}
use cestos_oversight.Inventory.Kept.Branches.{posting_rules}

pub join_lot-Keeps :
    (item : Item) (line : Line) (number : String) (found : Option Lot)
    → Keeps IsConsistent (join_lot item line number found)
unfolding join_lot
join_lot-Keeps item line number none = search posting_rules
join_lot-Keeps item line number (some lot) = search posting_rules

pub line_lot-Keeps :
    (item : Item) (line : Line) (id : Option ℕ) → Keeps IsConsistent (line_lot item line id)
unfolding line_lot
line_lot-Keeps item line none = search (posting_rules, join_lot-Keeps) depth 8
line_lot-Keeps item line (some id) = search posting_rules

pub received_lot-Keeps : (item : Item) (line : Line) → Keeps IsConsistent (received_lot item line)
unfolding received_lot
received_lot-Keeps item line = search (posting_rules, line_lot-Keeps)

pub received_serial-Keeps :
    (item : Item) (doc : Document) (line : Line)
    → Keeps IsConsistent (received_serial item doc line)
unfolding received_serial
received_serial-Keeps item doc line = search posting_rules depth 12

pub check_lot-Keeps :
    (env : Env) (item : Item) (allow : Bool) (id : Option ℕ)
    → Keeps IsConsistent (check_lot env item allow id)
unfolding check_lot
check_lot-Keeps env item allow none = search posting_rules
check_lot-Keeps env item allow (some id) = search posting_rules depth 8

pub check_serial_id-Keeps :
    (item : Item) (lot : Option ℕ) (receipt allow has : Bool) (id : Option ℕ)
    → Keeps IsConsistent (check_serial_id item lot receipt allow has id)
unfolding check_serial_id
check_serial_id-Keeps item lot receipt allow has none = search posting_rules
check_serial_id-Keeps item lot receipt allow has (some id) = search posting_rules

pub check_serial-Keeps :
    (item : Item) (lot : Option ℕ) (receipt allow has : Bool) (id : Option ℕ)
    → Keeps IsConsistent (check_serial item lot receipt allow has id)
unfolding check_serial
check_serial-Keeps item lot receipt allow has id = search (posting_rules, check_serial_id-Keeps)

pub tracked-Keeps :
    (env : Env) (item : Item) (line : Line) (doc : Document) (receipt allow : Bool)
    → Keeps IsConsistent (tracked env item line doc receipt allow)
unfolding tracked
tracked-Keeps env item line doc receipt allow =
    search
      (
        posting_rules, received_lot-Keeps, received_serial-Keeps, check_lot-Keeps,
        check_serial-Keeps,
      )
      depth 10
