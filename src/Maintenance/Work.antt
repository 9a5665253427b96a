-- ===== src/Maintenance/Work.antt =====
-- The operations on work orders (app/services/maintenance.py).
use cestos_oversight.Base.{
  ℕ, ◌+◌, Option, none, some, List, [], ◌∷◌, ◌++◌, Bool, false, not, ◌&&◌, ◌||◌, ltb, is_set,
  get_or, any, map, if◌then◌else◌,
}
use cestos_oversight.Base.Int.{ℤ, zero_ℤ, ltb_ℤ}
use cestos_oversight.Base.Decimal.{Decimal, ◌*ᵈ◌}
use cestos_oversight.Base.Table.{put}
use cestos_oversight.Base.Text.{Text, upper, is_filled}
use cestos_oversight.Base.Action.{
  Action, value_error, not_found, conflict, validation, integrity, out_of_range, pure, gets, modify,
  raise_if, state_after, ◌>>=◌, ◌>>◌,
}
use cestos_oversight.Counters.{EntityType, next_business_number}
use cestos_oversight.Maintenance.Model.{
  WorkOrderStatus, WorkOrderCostLine, MaintenanceWorkOrder, Db, CostLineCreate, WorkOrderCreate,
  WorkOrderUpdate, CompleteRequest,
}
use cestos_oversight.Maintenance.Orders.{
  work_order, save_work_order, insert_work_order, notify, is_completed, has_length, is_bad_line,
  is_unfit_line, is_unfit, is_unfit_entry, is_unposted, cost_project, cost_entries, posted_lines,
  completion_label, resolve, all_of, nonzero, is_bad_completion,
}

module _ (column_2 : Decimal → ℤ) where
  abbrev pub new_line : CostLineCreate → WorkOrderCostLine
  new_line l = record {
    cost_type = upper l.cost_type;
    description = l.description;
    quantity = column_2 l.quantity;
    unit_cost = column_2 l.unit_cost;
    total_cost = column_2 (l.quantity *ᵈ l.unit_cost);
    currency = l.currency;
    posted_to_subledger = false;
  }

  unfoldable pub new_lines : List CostLineCreate → List WorkOrderCostLine
  unfolding upper ◌*ᵈ◌
  new_lines = map new_line

  -- The row of a new order.
  unfoldable pub new_order : ℕ → WorkOrderCreate → Text → ℕ → MaintenanceWorkOrder
  unfolding new_lines
  new_order now p number id = record {
    id = id;
    wo_number = number;
    asset_id = p.asset_id;
    project_id = p.project_id;
    defect_id = p.defect_id;
    title = p.title;
    status = WorkOrderStatus.opened;
    root_cause = none;
    remedy = none;
    downtime_hours = zero_ℤ;
    estimated_lost_contribution = zero_ℤ;
    completed_at = none;
    completed_by_id = none;
    notes = p.notes;
    created_at = now;
    archived_at = none;
    cost_lines = new_lines p.cost_lines;
  }

  -- The rows that a new order refers to are there.
  abbrev pub refers : WorkOrderCreate → Db → Bool
  refers p db =
      db.is_asset p.asset_id
      && all_of db.is_project p.project_id
      && all_of (λ id. is_set (db.defects id)) p.defect_id

  -- `create_work_order`
  unfoldable pub create : ℕ → ℕ → WorkOrderCreate → Action Db MaintenanceWorkOrder
  unfolding new_order insert_work_order notify
  create org now p = do
    raise_if (not (has_length 1 200 p.title) || any is_bad_line p.cost_lines)
        (validation "The work order is not valid.")
    drawn ← gets (λ db. next_business_number org EntityType.maintenance_work_order db.counters)
    modify (λ db. record db { counters = drawn.1 })
    known ← gets (refers p)
    raise_if (not known) integrity
    raise_if (any is_unfit_line (new_lines p.cost_lines)) out_of_range
    wo ← insert_work_order (new_order now p drawn.0)
    notify wo.id
    pure wo

  -- `add_cost_line_to_work_order`
  unfoldable pub add_cost_line : ℕ → CostLineCreate → Action Db WorkOrderCostLine
  unfolding work_order save_work_order upper ◌*ᵈ◌
  add_cost_line id l = do
    raise_if (is_bad_line l) (validation "The cost line is not valid.")
    wo ← work_order id (value_error "Work order not found.")
    let line = new_line l
    raise_if (is_unfit_line line) out_of_range
    save_work_order (record wo { cost_lines = wo.cost_lines ++ line ∷ [] })
    pure line

  abbrev pub filled_or : Option Text → Option Text → Option Text
  filled_or given old = if is_filled given then given else old

  abbrev pub given_or : Option Decimal → ℤ → ℤ
  given_or none old = old
  given_or (some d) old = column_2 d

  abbrev pub negative_hours : Option Decimal → Bool
  negative_hours none = false
  negative_hours (some d) = ltb_ℤ d.coefficient zero_ℤ

  abbrev pub is_bad_update : WorkOrderUpdate → Bool
  is_bad_update p =
      not (has_length 1 200 (get_or p.title (b'x' ∷ [])))
      || negative_hours p.downtime_hours
      || negative_hours p.estimated_lost_contribution

  -- `update_work_order`, of the endpoint; ten days are 864000000000 microseconds.
  unfoldable pub update : ℕ → ℕ → WorkOrderUpdate → Action Db MaintenanceWorkOrder
  unfolding work_order save_work_order
  update now id p = do
    raise_if (is_bad_update p) (validation "The work order is not valid.")
    wo ← work_order id (not_found "Work order not found.")
    raise_if (ltb (wo.created_at + 864000000000) now)
        (conflict "Work orders can only be edited within 10 days of creation.")
    let after = record wo {
      title = get_or p.title wo.title;
      status = get_or p.status wo.status;
      root_cause = get_or p.root_cause wo.root_cause;
      remedy = get_or p.remedy wo.remedy;
      downtime_hours = given_or p.downtime_hours wo.downtime_hours;
      estimated_lost_contribution =
          given_or p.estimated_lost_contribution wo.estimated_lost_contribution;
      notes = get_or p.notes wo.notes;
    }
    raise_if (is_unfit after) out_of_range
    save_work_order after
    pure after

  abbrev pub nonzero_or : Decimal → ℤ → ℤ
  nonzero_or d old = if nonzero d then column_2 d else old

  -- The order once it is completed.
  unfoldable pub completed_order :
      ℕ → ℕ → CompleteRequest → MaintenanceWorkOrder → MaintenanceWorkOrder
  unfolding posted_lines
  completed_order user now p wo = record wo {
    status = WorkOrderStatus.completed;
    completed_at = some now;
    completed_by_id = some user;
    root_cause = filled_or p.root_cause wo.root_cause;
    remedy = filled_or p.remedy wo.remedy;
    downtime_hours = nonzero_or p.downtime_hours wo.downtime_hours;
    estimated_lost_contribution =
        nonzero_or p.estimated_lost_contribution wo.estimated_lost_contribution;
    notes =
        if is_filled p.notes
        then some (get_or wo.notes [] ++ completion_label ++ get_or p.notes [])
        else wo.notes;
    cost_lines = posted_lines wo.cost_lines;
  }

  -- The rows that a completion writes: the order, its defect and the entries of its lines.
  unfoldable pub write_completion : ℕ → ℕ → ℕ → CompleteRequest → MaintenanceWorkOrder → Db → Db
  unfolding completed_order cost_entries
  write_completion org user now p wo db = record db {
    orders = put wo.id (completed_order user now p wo) db.orders;
    defects = resolve org now wo.wo_number wo.defect_id db.defects;
    costs = db.costs ++ cost_entries wo user now wo.cost_lines;
  }

  -- The completion of an order that is not completed. The rows must fit
  -- their columns, and an entry refers to a row of `projects`.
  unfoldable pub complete_open :
      ℕ → ℕ → ℕ → CompleteRequest → MaintenanceWorkOrder → Action Db MaintenanceWorkOrder
  unfolding write_completion notify
  complete_open org user now p wo = do
    raise_if (is_unfit (completed_order user now p wo)) out_of_range
    raise_if (any is_unfit_entry (cost_entries wo user now wo.cost_lines)) out_of_range
    known ← gets (λ db. db.is_project (cost_project wo))
    raise_if (any is_unposted wo.cost_lines && not known) integrity
    modify (write_completion org user now p wo)
    notify wo.id
    pure (completed_order user now p wo)

  -- `complete_work_order`
  unfoldable pub complete : ℕ → ℕ → ℕ → ℕ → CompleteRequest → Action Db MaintenanceWorkOrder
  unfolding work_order complete_open is_completed
  complete org user now id p = do
    raise_if (is_bad_completion p) (validation "Input should be greater than or equal to 0")
    wo ← work_order id (value_error "Work order not found.")
    if is_completed wo.status then pure wo else complete_open org user now p wo

-- The requests that change work orders.
pub data Request : Type 0 where
  created : ℕ → WorkOrderCreate → Request
  cost_added : ℕ → CostLineCreate → Request
  updated : ℕ → ℕ → WorkOrderUpdate → Request
  completed : ℕ → ℕ → ℕ → CompleteRequest → Request

module _ (column_2 : Decimal → ℤ) (org : ℕ) where
  unfoldable pub serve : Request → Action Db (Unit {0})
  unfolding create add_cost_line update complete
  serve (Request.created now p) = create column_2 org now p >> pure tt
  serve (Request.cost_added id l) = add_cost_line column_2 id l >> pure tt
  serve (Request.updated now id p) = update column_2 now id p >> pure tt
  serve (Request.completed user now id p) = complete column_2 org user now id p >> pure tt

  -- One request after another; one that fails leaves the tables as they were.
  unfoldable pub serve_all : List Request → Db → Db
  unfolding serve
  serve_all [] db = db
  serve_all (r ∷ rs) db = serve_all rs (state_after (serve r db) db)
