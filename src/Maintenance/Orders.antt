-- ===== src/Maintenance/Orders.antt =====
-- The rows that the operations on work orders read and write (app/services/maintenance.py).
use cestos_oversight.Base.{
  ℕ, suc, Option, none, some, List, [], ◌∷◌, ◌++◌, Bool, true, false, not, ◌&&◌, ◌||◌, ◌^◌, leb,
  ltb, length, ◌==◌, is_set, get_or, map, if◌then◌else◌,
}
use cestos_oversight.Base.Int.{ℤ, size, zero_ℤ, ◌=ℤ◌, ltb_ℤ, leb_ℤ}
use cestos_oversight.Base.Decimal.{Decimal}
use cestos_oversight.Base.Table.{Table, put}
use cestos_oversight.Base.Text.{Text, upper, ◌=ᵗ◌}
use cestos_oversight.Base.Action.{Action, Error, ok, gets, or_raise, modify, ◌>>=◌}
use cestos_oversight.Commercial.Model.{CostCategory, CostSubledgerEntry}
use cestos_oversight.Maintenance.Model.{
  WorkOrderStatus, WorkOrderCostLine, MaintenanceWorkOrder, AssetDefect, Db, CostLineCreate,
  CompleteRequest,
}

-- `get_work_order`
abbrev pub live_work_order : ℕ → Db → Option MaintenanceWorkOrder
live_work_order id db = elim (db.orders id) [
  | none ↦ none
  | some wo ↦ if is_set wo.archived_at then none else some wo
]

unfoldable pub work_order : ℕ → Error → Action Db MaintenanceWorkOrder
work_order id missing = do found ← gets (live_work_order id); or_raise found missing

-- The row is written back.
unfoldable pub save_work_order : MaintenanceWorkOrder → Action Db (Unit {0})
save_work_order wo = modify (λ db. record db { orders = put wo.id wo db.orders })

-- A new row, under the next id.
unfoldable pub insert_work_order : (ℕ → MaintenanceWorkOrder) → Action Db MaintenanceWorkOrder
insert_work_order row db = ok (
  row db.next_id,
  record db { orders = put db.next_id (row db.next_id) db.orders; next_id = suc db.next_id },
)

-- `notify_work_order`, as the order that it names.
unfoldable pub notify : ℕ → Action Db (Unit {0})
notify id = modify (λ db. record db { notified = db.notified ++ id ∷ [] })

unfoldable pub is_completed : WorkOrderStatus → Bool
is_completed WorkOrderStatus.completed = true
is_completed _ = false

-- `min_length` and `max_length`
abbrev pub has_length : ℕ → ℕ → Text → Bool
has_length low high s = leb low (length s) && leb (length s) high

-- The fields of a cost line: `gt=0`, `ge=0` and the lengths of its texts
abbrev pub is_bad_line : CostLineCreate → Bool
is_bad_line l =
    leb_ℤ l.quantity.coefficient zero_ℤ
    || ltb_ℤ l.unit_cost.coefficient zero_ℤ
    || not (has_length 1 30 l.cost_type)
    || not (has_length 1 255 l.description)
    || not (has_length 3 3 l.currency)

-- A count of 0.01 with more digits than its column `Numeric(digits, 2)`
abbrev pub overflows : ℕ → ℤ → Bool
overflows digits z = leb (10 ^ digits) (size z)

-- A line, an order and a cost entry that their columns cannot take. The numbers of an entry are
-- those of its line, in columns as wide.
abbrev pub is_unfit_line : WorkOrderCostLine → Bool
is_unfit_line l = overflows 14 l.quantity || overflows 14 l.unit_cost || overflows 14 l.total_cost

abbrev pub is_unfit : MaintenanceWorkOrder → Bool
is_unfit wo = overflows 10 wo.downtime_hours || overflows 14 wo.estimated_lost_contribution

abbrev pub is_unfit_entry : CostSubledgerEntry → Bool
is_unfit_entry e = ltb 255 (length e.description)

-- "PARTS"
abbrev pub parts : Text
parts = b'P' ∷ b'A' ∷ b'R' ∷ b'T' ∷ b'S' ∷ []

abbrev pub is_unposted : WorkOrderCostLine → Bool
is_unposted l = not l.posted_to_subledger

-- `wo.project_id or wo.asset_id`
abbrev pub cost_project : MaintenanceWorkOrder → ℕ
cost_project wo = get_or wo.project_id wo.asset_id

unfoldable pub cost_entry : MaintenanceWorkOrder → ℕ → ℕ → WorkOrderCostLine → CostSubledgerEntry
unfolding upper
cost_entry wo user now l = record {
  project_id = cost_project wo;
  rig_id = some wo.asset_id;
  cost_category =
      if upper l.cost_type =ᵗ parts then CostCategory.maintenance_parts else CostCategory.labour;
  description = b'W' ∷ b'O' ∷ 32 ∷ (wo.wo_number ++ (58 ∷ 32 ∷ l.description));
  quantity = l.quantity;
  unit_cost = l.unit_cost;
  total_cost = l.total_cost;
  currency = l.currency;
  total_cost_base = l.total_cost;
  source_entity_id = some wo.id;
  posted_at = now;
  created_by_id = some user;
}

-- The entries that the lines not yet posted get, and the lines once they are posted.
unfoldable pub cost_entries :
    MaintenanceWorkOrder → ℕ → ℕ → List WorkOrderCostLine → List CostSubledgerEntry
unfolding cost_entry
cost_entries wo user now [] = []
cost_entries wo user now (l ∷ ls) =
    let rest = cost_entries wo user now ls in
    if is_unposted l then cost_entry wo user now l ∷ rest else rest

unfoldable pub posted_lines : List WorkOrderCostLine → List WorkOrderCostLine
posted_lines = map (λ (l : WorkOrderCostLine). record l { posted_to_subledger = true })

-- "\nCompletion notes: " and "\nResolved via Work Order "
abbrev pub completion_label : Text
completion_label =
    10 ∷ b'C' ∷ b'o' ∷ b'm' ∷ b'p' ∷ b'l' ∷ b'e' ∷ b't' ∷ b'i' ∷ b'o' ∷ b'n' ∷ 32 ∷ b'n' ∷ b'o'
    ∷ b't' ∷ b'e' ∷ b's' ∷ 58 ∷ 32 ∷ []

abbrev pub resolved_label : Text
resolved_label =
    10 ∷ b'R' ∷ b'e' ∷ b's' ∷ b'o' ∷ b'l' ∷ b'v' ∷ b'e' ∷ b'd' ∷ 32 ∷ b'v' ∷ b'i' ∷ b'a' ∷ 32 ∷ b'W'
    ∷ b'o' ∷ b'r' ∷ b'k' ∷ 32 ∷ b'O' ∷ b'r' ∷ b'd' ∷ b'e' ∷ b'r' ∷ 32 ∷ []

-- "RESOLVED"
abbrev pub resolved : Text
resolved = b'R' ∷ b'E' ∷ b'S' ∷ b'O' ∷ b'L' ∷ b'V' ∷ b'E' ∷ b'D' ∷ []

-- The defect that the work resolves.
abbrev pub resolve : ℕ → ℕ → Text → Option ℕ → Table AssetDefect → Table AssetDefect
resolve org now number none defects = defects
resolve org now number (some id) defects = elim (defects id) [
  | none ↦ defects
  | some d ↦
      if d.organization_id == org
      then put id
          (record d {
            status = resolved;
            resolved_at = some now;
            notes = some (get_or d.notes [] ++ resolved_label ++ number);
          })
          defects
      else defects
]

abbrev pub all_of : (ℕ → Bool) → Option ℕ → Bool
all_of p none = true
all_of p (some id) = p id

abbrev pub nonzero : Decimal → Bool
nonzero d = not (d.coefficient =ℤ zero_ℤ)

-- `Field(ge=0)` on the hours and the contribution
abbrev pub is_bad_completion : CompleteRequest → Bool
is_bad_completion p =
    ltb_ℤ p.downtime_hours.coefficient zero_ℤ
    || ltb_ℤ p.estimated_lost_contribution.coefficient zero_ℤ
