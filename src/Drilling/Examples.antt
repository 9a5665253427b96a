-- ===== src/Drilling/Examples.antt =====
-- Sample requests on shift reports.
use cestos_oversight.Base.{ℕ, ◌≡◌, refl, none, some, List, [], ◌∷◌, false, All, arith}
use cestos_oversight.Base.Int.{pos}
use cestos_oversight.Base.Decimal.{scaled}
use cestos_oversight.Base.Table.{put}
use cestos_oversight.Base.Action.{ok, state_after, ◌>>=◌}
use cestos_oversight.Commercial.Samples.{column, report, contract}
use cestos_oversight.Drilling.Model.{
  ShiftReportStatus, DrillHoleStatus, DrillHole, DrillingShiftReport,
}
use cestos_oversight.Drilling.Store.{Db}
use cestos_oversight.Drilling.Workflow.{is_approved, approve}
use cestos_oversight.Drilling.Update.{ShiftReportUpdate}
use cestos_oversight.Drilling.Service.{Request, Call, serve, serve_all}
use cestos_oversight.Drilling.Fees.{
  HasFeesOnce, is_approval, revenue_by_approval, fees_charged_once,
}
use cestos_oversight.Drilling.Final.{HasApproved, approved_final}
use cestos_oversight.Drilling.Holes.{depth, ◌≤ᵒ◌, claimed, approval_deepens}

abbrev hole : DrillHole
hole = record {
  id = 4;
  organization_id = 1;
  project_id = 3;
  site_location_id = none;
  target_depth_m = none;
  final_depth_m = some (pos 1200);
  status = DrillHoleStatus.planned;
  started_at = none;
  archived_at = none;
}

abbrev start : Db
start = record {
  users = λ id. none;
  locations = λ id. none;
  holes = put 4 hole (λ id. none);
  reports = report ∷ [];
  contracts = contract ∷ [];
  revenue = [];
}

abbrev correction : ShiftReportUpdate
correction = record {
  site_location_id = none;
  project_id = none;
  rig_id = none;
  program_id = none;
  date = none;
  shift_type = none;
  supervisor_id = none;
  notes = none;
  correction_reason = some (b'x' ∷ []);
  total_metres = some (scaled 0 (pos 30));
  avg_core_recovery_pct = none;
  total_productive_hours = none;
  total_nonproductive_hours = none;
  intervals = none;
  time_segments = none;
  crew_members = none;
}

-- An approval, and then a correction, a deletion and an approval again.
abbrev approval : Call
approval = record { user = 8; now = 90; id = 1; request = Request.approval none }

abbrev later : List Call
later =
    record { user = 8; now = 93; id = 1; request = Request.approval none }
    ∷ record { user = 8; now = 92; id = 1; request = Request.deleted }
    ∷ record { user = 8; now = 91; id = 1; request = Request.edited correction }
    ∷ []

abbrev approved : Db
approved = serve_all column 1 (approval ∷ []) start

abbrev approved_row : DrillingShiftReport
approved_row = record report {
  status = ShiftReportStatus.approved;
  approved_at = some 90;
  approved_by_id = some 8;
}

approved-HasApproved : HasApproved 1 (some 8) (some 90) approved
unfolding serve_all is_approved ◌>>=◌
approved-HasApproved = record {
  row = approved_row;
  there = refl;
  is_so = record { approved = refl; by = refl; at = refl };
}

approved_final_example : HasApproved 1 (some 8) (some 90) (serve_all column 1 later approved)
approved_final_example =
    approved_final 1 (some 8) (some 90) column 1 later approved approved-HasApproved

fees_charged_once_example : HasFeesOnce (serve_all column 1 (approval ∷ []) start).revenue
fees_charged_once_example = fees_charged_once column 1 (approval ∷ []) start (λ c. omega arith)

not_approval : is_approval (Request.edited correction) ≡ false
unfolding is_approval
not_approval = refl

revenue_by_approval_example :
    (state_after (serve column 1 8 91 1 (Request.edited correction) approved) approved).revenue
    ≡ approved.revenue
revenue_by_approval_example =
    revenue_by_approval column 1 8 91 1 (Request.edited correction) approved not_approval

-- The tables after the approval alone.
abbrev deepened : Db
deepened = state_after (approve column 1 8 90 1 none start) start

is_done : approve column 1 8 90 1 none start ≡ ok (approved_row, deepened)
unfolding approve is_approved ◌>>=◌
is_done = refl

approval_deepens_example :
    All
      (λ iv. claimed 1 iv (start.holes iv.drill_hole_id) ≤ᵒ depth (deepened.holes iv.drill_hole_id))
      approved_row.intervals
    × ((k : ℕ) → depth (start.holes k) ≤ᵒ depth (deepened.holes k))
approval_deepens_example = approval_deepens 1 90 column 8 1 none start approved_row deepened is_done
