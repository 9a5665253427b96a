-- ===== src/Inventory/Kept/Adjusted.antt =====
-- Adjustments and stock counts keep every balance a covered projection of the ledger
-- (app/services/inventory.py).
use cestos_oversight.Base.{ℕ, Option, none, some}
use cestos_oversight.Base.Int.{ℤ}
use cestos_oversight.Base.Decimal.{Decimal}
use cestos_oversight.Base.Keeps.{Keeps}
use cestos_oversight.Inventory.Model.{Serial}
use cestos_oversight.Inventory.Posting.{Posting}
use cestos_oversight.Inventory.Adjustments.{
  post_adjustment, post_change, check_adjusted_serial, counted_change, purposed_change,
  check_release, check_expired, adjusted_serial, Change,
}
use cestos_oversight.Inventory.Ledger.Projection.{IsConsistent}
use cestos_oversight.Inventory.Kept.Branches.{posting_rules}

pub check_adjusted_serial-Keeps :
    (p : Posting) (s : Option Serial) → Keeps IsConsistent (check_adjusted_serial p s)
unfolding check_adjusted_serial
check_adjusted_serial-Keeps p none = search posting_rules
check_adjusted_serial-Keeps p (some s) = search posting_rules

pub counted_change-Keeps : (p : Posting) → Keeps IsConsistent (counted_change p)
unfolding counted_change
counted_change-Keeps p = search posting_rules

pub purposed_change-Keeps : (p : Posting) → Keeps IsConsistent (purposed_change p)
unfolding purposed_change
purposed_change-Keeps p = search posting_rules

pub check_expired-Keeps : (p : Posting) (id : Option ℕ) → Keeps IsConsistent (check_expired p id)
unfolding check_expired
check_expired-Keeps p none = search posting_rules
check_expired-Keeps p (some id) = search posting_rules

pub check_release-Keeps : (p : Posting) → Keeps IsConsistent (check_release p)
unfolding check_release
check_release-Keeps p = search (posting_rules, check_expired-Keeps)

pub adjusted_serial-Keeps :
    (p : Posting) (d : ℤ) (s : Option Serial) → Keeps IsConsistent (adjusted_serial p d s)
unfolding adjusted_serial
adjusted_serial-Keeps p d none = search posting_rules
adjusted_serial-Keeps p d (some s) = search posting_rules

pub post_change-Keeps :
    (column_8 : Decimal → Decimal) (p : Posting) (q : ℤ) (c : Change)
    → Keeps IsConsistent (post_change column_8 p q c)
unfolding post_change
post_change-Keeps column_8 p q c =
    search (posting_rules, check_release-Keeps, adjusted_serial-Keeps) depth 12

pub post_adjustment-Keeps :
    (column_8 : Decimal → Decimal) (p : Posting) → Keeps IsConsistent (post_adjustment column_8 p)
unfolding post_adjustment
post_adjustment-Keeps column_8 p =
    search
      (
        posting_rules, check_adjusted_serial-Keeps, counted_change-Keeps, purposed_change-Keeps,
        post_change-Keeps,
      )
      depth 12
