-- ===== src/Hse/Examples.antt =====
-- Sample runs of requests on corrective actions.
use cestos_oversight.Base.{ℕ, refl, Option, none, some, List, [], ◌∷◌, ◌==◌, if◌then◌else◌, arith}
use cestos_oversight.Base.Action.{◌>>=◌}
use cestos_oversight.Hse.Model.{HseActionStatus, HseCorrectiveAction, Db, ActionUpdate}
use cestos_oversight.Hse.Service.{Request, edited, serve_all}
use cestos_oversight.Hse.Closure.{IsClosedAt, closure_stays}

-- Action 1, not closed yet.
abbrev guard : HseCorrectiveAction
guard = record {
  id = 1;
  organization_id = 1;
  action_number = b'c' ∷ [];
  incident_id = 1;
  description = b'x' ∷ [];
  assigned_to_id = 4;
  due_date = 80;
  status = HseActionStatus.opened;
  closure_notes = none;
  closed_at = none;
  closed_by_id = none;
}

abbrev start : Db
start = record {
  sites = record {
    users = λ id. none;
    locations = λ id. none;
    holes = λ id. none;
    reports = [];
    contracts = [];
    revenue = [];
  };
  incidents = λ id. none;
  actions = λ id. if id == 1 then some guard else none;
  counters = [];
  next_incident = 2;
  next_action = 2;
}

abbrev to_status : HseActionStatus → ActionUpdate
to_status s = record {
  description = none;
  assigned_to_id = none;
  due_date = none;
  status = some s;
  closure_notes = none;
}

-- User 5 closes the action.
abbrev done : Db
done =
    serve_all 1 ((some 5, Request.action_updated 60 1 (to_status HseActionStatus.closed)) ∷ [])
      start

done-IsClosedAt : IsClosedAt 1 60 (some 5) done
unfolding serve_all ◌>>=◌
done-IsClosedAt = record {
  row = edited 60 (some 5) (to_status HseActionStatus.closed) guard;
  stored = refl;
  at_time = refl;
  by_user = refl;
  early = omega arith;
}

-- It is reopened by user 6 and closed again by user 7.
abbrev later : List (Option ℕ × Request)
later =
    (some 6, Request.action_updated 70 1 (to_status HseActionStatus.opened))
    ∷ (some 7, Request.action_updated 80 1 (to_status HseActionStatus.closed))
    ∷ []

closure_stays_example : IsClosedAt 1 60 (some 5) (serve_all 1 later done)
closure_stays_example = closure_stays 1 60 (some 5) 1 later done done-IsClosedAt
