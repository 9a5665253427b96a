-- ===== src/Drilling/Workflow.antt =====
-- The workflow of a shift report: submission, approval, return and deletion
-- (app/services/drilling.py).
use cestos_oversight.Base.{
  ℕ, Option, none, some, List, [], ◌∷◌, ◌++◌, Bool, true, false, not, ◌&&◌, ◌||◌, ◌==◌, is_set,
  same_id, get_or, any, keep, if◌then◌else◌,
}
use cestos_oversight.Base.Int.{ℤ, ltb_ℤ}
use cestos_oversight.Base.Decimal.{Decimal}
use cestos_oversight.Base.Table.{Table, put}
use cestos_oversight.Base.Text.{Text, lower, contains, is_filled, ◌=ᵗ◌}
use cestos_oversight.Base.Action.{Action, value_error, pure, gets, modify, raise_if, ◌>>=◌, ◌>>◌}
use cestos_oversight.Commercial.Revenue.{post_shift_revenue}
use cestos_oversight.Drilling.Model.{
  ShiftReportStatus, DrillHoleStatus, DrillHole, DrillingShiftInterval, DrillingShiftReport,
}
use cestos_oversight.Drilling.Store.{Role, User, Db, is_report, report_of, save}

-- `(report.notes or "") + label + notes`, where there are notes.
abbrev pub annotated : Text → Option Text → Option Text → Option Text
annotated label notes old =
    if is_filled notes then some (get_or old [] ++ label ++ get_or notes []) else old

-- "\nSubmit notes: " and "\nApproval notes: "
abbrev pub submit_label : Text
submit_label =
    10 ∷ b'S' ∷ b'u' ∷ b'b' ∷ b'm' ∷ b'i' ∷ b't' ∷ 32 ∷ b'n' ∷ b'o' ∷ b't' ∷ b'e' ∷ b's' ∷ b':' ∷ 32
    ∷ []

abbrev pub approval_label : Text
approval_label =
    10 ∷ b'A' ∷ b'p' ∷ b'p' ∷ b'r' ∷ b'o' ∷ b'v' ∷ b'a' ∷ b'l' ∷ 32 ∷ b'n' ∷ b'o' ∷ b't' ∷ b'e'
    ∷ b's' ∷ b':' ∷ 32 ∷ []

unfoldable pub is_approved : ShiftReportStatus → Bool
is_approved ShiftReportStatus.approved = true
is_approved _ = false

unfoldable pub is_submitted : ShiftReportStatus → Bool
is_submitted ShiftReportStatus.submitted = true
is_submitted _ = false

-- A draft, or a report that was returned.
unfoldable pub is_open : ShiftReportStatus → Bool
is_open ShiftReportStatus.draft = true
is_open ShiftReportStatus.returned = true
is_open _ = false

-- `submit_shift_report`
unfoldable pub submit : ℕ → ℕ → ℕ → Option Text → Action Db DrillingShiftReport
unfolding report_of is_open save
submit user now id notes = do
  report ← report_of id
  raise_if (not (is_open report.status))
      (value_error "Shift report cannot be submitted from its status.")
  let after = record report {
    status = ShiftReportStatus.submitted;
    submitted_at = some now;
    submitted_by_id = some user;
    notes = annotated submit_label notes report.notes;
  }
  save after
  pure after

-- The permissions and the words in the name of a role that may approve.
abbrev pub approval_permissions : List Text
approval_permissions =
    (b'd' ∷ b'r' ∷ b'i' ∷ b'l' ∷ b'l' ∷ b'i' ∷ b'n' ∷ b'g' ∷ b'.' ∷ b's' ∷ b'h' ∷ b'i' ∷ b'f' ∷ b't'
      ∷ b's' ∷ b'.' ∷ b'a' ∷ b'p' ∷ b'p' ∷ b'r' ∷ b'o' ∷ b'v' ∷ b'e' ∷ [])
    ∷ (b'r' ∷ b'e' ∷ b'p' ∷ b'o' ∷ b'r' ∷ b't' ∷ b's' ∷ b'.' ∷ b'a' ∷ b'p' ∷ b'p' ∷ b'r' ∷ b'o'
        ∷ b'v' ∷ b'e' ∷ [])
    ∷ (b'p' ∷ b'r' ∷ b'o' ∷ b'j' ∷ b'e' ∷ b'c' ∷ b't' ∷ b's' ∷ b'.' ∷ b'm' ∷ b'a' ∷ b'n' ∷ b'a'
        ∷ b'g' ∷ b'e' ∷ [])
    ∷ (b'p' ∷ b'r' ∷ b'o' ∷ b'j' ∷ b'e' ∷ b'c' ∷ b't' ∷ b's' ∷ b'.' ∷ b'u' ∷ b'p' ∷ b'd' ∷ b'a'
        ∷ b't' ∷ b'e' ∷ [])
    ∷ (b'd' ∷ b'r' ∷ b'i' ∷ b'l' ∷ b'l' ∷ b'i' ∷ b'n' ∷ b'g' ∷ b'.' ∷ b'a' ∷ b'p' ∷ b'p' ∷ b'r'
        ∷ b'o' ∷ b'v' ∷ b'e' ∷ [])
    ∷ []

abbrev pub approver_keywords : List Text
approver_keywords =
    (b'm' ∷ b'a' ∷ b'n' ∷ b'a' ∷ b'g' ∷ b'e' ∷ b'r' ∷ [])
    ∷ (b's' ∷ b'u' ∷ b'p' ∷ b'e' ∷ b'r' ∷ b'i' ∷ b'n' ∷ b't' ∷ b'e' ∷ b'n' ∷ b'd' ∷ b'e' ∷ b'n'
        ∷ b't' ∷ [])
    ∷ (b'd' ∷ b'i' ∷ b'r' ∷ b'e' ∷ b'c' ∷ b't' ∷ b'o' ∷ b'r' ∷ [])
    ∷ (b's' ∷ b'u' ∷ b'p' ∷ b'e' ∷ b'r' ∷ b'v' ∷ b'i' ∷ b's' ∷ b'o' ∷ b'r' ∷ [])
    ∷ (b'c' ∷ b'l' ∷ b'i' ∷ b'e' ∷ b'n' ∷ b't' ∷ 32 ∷ b'r' ∷ b'e' ∷ b'p' ∷ b'r' ∷ b'e' ∷ b's' ∷ b'e'
        ∷ b'n' ∷ b't' ∷ b'a' ∷ b't' ∷ b'i' ∷ b'v' ∷ b'e' ∷ [])
    ∷ (b'a' ∷ b'd' ∷ b'm' ∷ b'i' ∷ b'n' ∷ [])
    ∷ (b'l' ∷ b'e' ∷ b'a' ∷ b'd' ∷ [])
    ∷ (b'f' ∷ b'o' ∷ b'r' ∷ b'e' ∷ b'm' ∷ b'a' ∷ b'n' ∷ [])
    ∷ []

unfoldable pub may_approve : ℕ → User → Bool
unfolding lower contains
may_approve org user =
    user.is_superuser
    || any
        (λ (r : Role).
          (not (is_set r.organization_id) || same_id r.organization_id (some org))
          && (any (λ p. any (λ q. q =ᵗ p) approval_permissions) r.permissions
              || any (λ word. contains word (lower r.name)) approver_keywords))
        user.roles

abbrev pub is_refused : ℕ → ℕ → Db → Bool
is_refused org id db = elim (db.users id) [ none ↦ false | some u ↦ not (may_approve org u) ]

unfoldable pub is_planned : DrillHoleStatus → Bool
is_planned DrillHoleStatus.planned = true
is_planned _ = false

-- The hole after an interval to `to` is approved.
unfoldable pub reached : ℕ → ℤ → DrillHole → DrillHole
unfolding is_planned
reached now to h = record h {
  final_depth_m = (elim h.final_depth_m [
    | none ↦ some to
    | some d ↦ if ltb_ℤ d to then some to else some d
  ]);
  status = if is_planned h.status then DrillHoleStatus.in_progress else h.status;
  started_at = if is_planned h.status then some (get_or h.started_at now) else h.started_at;
}

-- The holes once the hole of an interval is looked up.
unfoldable pub reach_found :
    ℕ → ℕ → DrillingShiftInterval → Option DrillHole → Table DrillHole → Table DrillHole
unfolding reached
reach_found org now iv none holes = holes
reach_found org now iv (some h) holes =
    if h.organization_id == org
    then put iv.drill_hole_id (reached now iv.to_depth_m h) holes
    else holes

unfoldable pub reach_hole : ℕ → ℕ → DrillingShiftInterval → Table DrillHole → Table DrillHole
unfolding reach_found
reach_hole org now iv holes = reach_found org now iv (holes iv.drill_hole_id) holes

unfoldable pub reach_holes : ℕ → ℕ → List DrillingShiftInterval → Table DrillHole → Table DrillHole
unfolding reach_hole
reach_holes org now [] holes = holes
reach_holes org now (iv ∷ ivs) holes = reach_holes org now ivs (reach_hole org now iv holes)

-- The report once it is approved.
unfoldable pub approved_report : ℕ → ℕ → Option Text → DrillingShiftReport → DrillingShiftReport
unfolding is_open
approved_report user now notes r = record r {
  status = ShiftReportStatus.approved;
  submitted_at = if is_open r.status then some (get_or r.submitted_at now) else r.submitted_at;
  submitted_by_id =
      if is_open r.status then some (get_or r.submitted_by_id user) else r.submitted_by_id;
  approved_at = some now;
  approved_by_id = some user;
  notes = annotated approval_label notes r.notes;
}

module _ (column_2 : Decimal → ℤ) (org : ℕ) where
  -- The depths of the holes and the revenue that an approval writes.
  unfoldable pub record_work : ℕ → ℕ → DrillingShiftReport → Db → Db
  unfolding reach_holes post_shift_revenue
  record_work user now r db = record db {
    holes = reach_holes org now r.intervals db.holes;
    revenue = post_shift_revenue column_2 db.contracts r (some user) now db.revenue;
  }

  -- `approve_shift_report`
  unfoldable pub approve : ℕ → ℕ → ℕ → Option Text → Action Db DrillingShiftReport
  unfolding report_of is_approved approved_report save record_work may_approve
  approve user now id notes = do
    refused ← gets (is_refused org user)
    raise_if refused (value_error "You do not have permission to approve shift reports.")
    report ← report_of id
    raise_if (is_approved report.status)
        (value_error "Shift report cannot be approved from its status.")
    let after = approved_report user now notes report
    save after
    modify (record_work user now after)
    pure after

-- `return_shift_report`
unfoldable pub send_back : ℕ → Text → Action Db DrillingShiftReport
unfolding report_of is_submitted save
send_back id reason = do
  report ← report_of id
  raise_if (not (is_submitted report.status))
      (value_error "Shift report cannot be returned from its status.")
  let after = record report { status = ShiftReportStatus.returned; return_reason = some reason }
  save after
  pure after

-- `delete_shift_report`
unfoldable pub delete : ℕ → Action Db Bool
unfolding report_of is_approved
delete id = do
  report ← report_of id
  raise_if (is_approved report.status)
      (value_error "Approved shift production reports cannot be deleted.")
  modify (λ db. record db { reports = keep (λ r. not (is_report id r)) db.reports })
  pure true
