-- ===== src/Maintenance/Examples.antt =====
-- Sample runs of requests on work orders.
use cestos_oversight.Base.{ℕ, ◌≡◌, refl, Option, none, some, List, [], ◌∷◌, ◌==◌, length}
use cestos_oversight.Base.Int.{pos}
use cestos_oversight.Base.Decimal.{scaled}
use cestos_oversight.Base.Action.{ok, state_after, ◌>>=◌}
use cestos_oversight.Commercial.Samples.{column}
use cestos_oversight.Counters.{EntityType, is_counter, next_business_number}
use cestos_oversight.Maintenance.Model.{MaintenanceWorkOrder, Db, WorkOrderCreate, CompleteRequest}
use cestos_oversight.Maintenance.Orders.{is_completed}
use cestos_oversight.Maintenance.Work.{Request, new_order, completed_order, complete, serve_all}
use cestos_oversight.Maintenance.Costs.{Balanced}
use cestos_oversight.Maintenance.Kept.{serve_all-Balanced}
use cestos_oversight.Maintenance.Completion.{complete_twice}

-- Asset 8 and project 3 are there.
abbrev no_db : Db
no_db = record {
  is_asset = λ id. id == 8;
  is_project = λ id. id == 3;
  orders = λ id. none;
  defects = λ id. none;
  costs = [];
  counters = [];
  next_id = 1;
  notified = [];
}

no_db-Balanced : Balanced no_db
no_db-Balanced = record { balanced = λ id p. refl; keyed = λ id wo row. cc; fresh = λ id h. refl }

abbrev done : CompleteRequest
done = record {
  root_cause = none;
  remedy = some (b'x' ∷ []);
  downtime_hours = scaled 2 (pos 350);
  estimated_lost_contribution = scaled 2 (pos 0);
  notes = none;
}

-- An order on asset 8, for a project or none, with one line of cost.
abbrev work : Option ℕ → WorkOrderCreate
work project = record {
  asset_id = 8;
  project_id = project;
  defect_id = none;
  title = b'x' ∷ [];
  notes = none;
  cost_lines =
      record {
        cost_type = b'p' ∷ [];
        quantity = scaled 2 (pos 200);
        unit_cost = scaled 2 (pos 1500);
        description = b'x' ∷ [];
        currency = b'u' ∷ b's' ∷ b'd' ∷ [];
      }
      ∷ [];
}

abbrev raised : Option ℕ → Request
raised project = Request.created 50 (work project)

-- The order is raised, completed, given a further cost and completed again.
abbrev requests : List Request
requests =
    raised (some 3)
    ∷ Request.completed 5 60 1 done
    ∷ Request.cost_added 1 (record {
      cost_type = b'l' ∷ [];
      quantity = scaled 2 (pos 100);
      unit_cost = scaled 2 (pos 900);
      description = b'x' ∷ [];
      currency = b'u' ∷ b's' ∷ b'd' ∷ [];
    })
    ∷ Request.completed 5 70 1 done
    ∷ []

serve_all-Balanced_example : Balanced (serve_all column 1 requests no_db)
serve_all-Balanced_example = serve_all-Balanced column 1 requests no_db no_db-Balanced

-- The further cost has no entry.
abbrev later : Db
later = serve_all column 1 requests no_db

entries_later : length later.costs ≡ 1
unfolding serve_all ◌>>=◌ column next_business_number is_counter
entries_later = refl

-- An order without a project, on an asset whose id is none of a project.
abbrev unready : Db
unready = serve_all column 1 (raised none ∷ []) no_db

abbrev ready : Db
ready = serve_all column 1 (raised (some 3) ∷ []) no_db

ready-Balanced : Balanced ready
ready-Balanced = serve_all-Balanced column 1 (raised (some 3) ∷ []) no_db no_db-Balanced

-- The order once user 5 has completed it, and the tables then.
abbrev finished : MaintenanceWorkOrder
finished = completed_order column 5 60 done (
    new_order column 50 (work (some 3))
      (next_business_number 1 EntityType.maintenance_work_order []).0 1)

abbrev settled : Db
settled = state_after (complete column 1 5 60 1 done ready) ready

is_finished : complete column 1 5 60 1 done ready ≡ ok (finished, settled)
unfolding serve_all is_completed ◌>>=◌ column next_business_number is_counter
is_finished = refl

complete_twice_example : complete column 1 6 70 1 done settled ≡ ok (finished, settled)
complete_twice_example =
    complete_twice column 1 5 6 60 70 1 done done ready settled finished ready-Balanced is_finished
      refl
