-- ===== src/Inventory/Kept/Reversed.antt =====
-- A reversal keeps every balance a covered projection of the ledger (app/services/inventory.py).
use cestos_oversight.Base.{ℕ, Option, none, some, List, [], ◌∷◌}
use cestos_oversight.Base.Decimal.{Decimal}
use cestos_oversight.Base.Keeps.{Keeps, After}
use cestos_oversight.Inventory.Model.{LedgerEntry, Transaction, Db}
use cestos_oversight.Inventory.References.{Env}
use cestos_oversight.Inventory.Reversals.{
  check_issue, reversed_serial, reverse_entries, reverse_new, reverse_once, reverse,
}
use cestos_oversight.Inventory.Ledger.Projection.{IsConsistent}
use cestos_oversight.Inventory.Ledger.Kept.{next_transaction_number-Keeps, add_transaction-Keeps}
use cestos_oversight.Inventory.Kept.Branches.{posting_rules}

check_issue-Keeps : (t : Transaction) → Keeps IsConsistent (check_issue t)
unfolding check_issue
check_issue-Keeps t = search posting_rules depth 12

reversed_serial-Keeps :
    (t : Transaction) (id : Option ℕ) → Keeps IsConsistent (reversed_serial t id)
unfolding reversed_serial
reversed_serial-Keeps t none = search posting_rules
reversed_serial-Keeps t (some id) = search posting_rules depth 12

module _ (column_8 : Decimal → Decimal) where
  reverse_entries-Keeps :
      (id : ℕ) (entries : List LedgerEntry)
      → Keeps IsConsistent (reverse_entries column_8 id entries)
  unfolding reverse_entries
  reverse_entries-Keeps id [] = search posting_rules
  reverse_entries-Keeps id (entry ∷ entries) =
      search (posting_rules, λ (n : ℕ). reverse_entries-Keeps n entries) depth 12

  reverse_new-Keeps :
      (env : Env) (t : Transaction) → Keeps IsConsistent (reverse_new column_8 env t)
  unfolding reverse_new
  reverse_new-Keeps env t =
      search
        (
          posting_rules, check_issue-Keeps, next_transaction_number-Keeps, add_transaction-Keeps,
          reverse_entries-Keeps, reversed_serial-Keeps,
        )
        depth 30

  reverse_once-Keeps :
      (env : Env) (t : Transaction) (existing : Option Transaction)
      → Keeps IsConsistent (reverse_once column_8 env t existing)
  unfolding reverse_once
  reverse_once-Keeps env t none = reverse_new-Keeps env t
  reverse_once-Keeps env t (some r) = search posting_rules

  reverse-Keeps : (env : Env) (id : ℕ) → Keeps IsConsistent (reverse column_8 env id)
  unfolding reverse
  reverse-Keeps env id = search (posting_rules, reverse_once-Keeps) depth 12

  -- From a database in which every balance is covered and each of its quantities is the sum of its
  -- ledger entries, the
  -- reversal of any movement fails, or leaves such a database.
  pub reverse-IsConsistent :
      (env : Env) (id : ℕ) (db : Db)
      → IsConsistent db
      → After IsConsistent (reverse column_8 env id db)
  reverse-IsConsistent env id db h = (reverse-Keeps env id).at db h
