-- ===== src/Drilling/Model.antt =====
-- The rows of app/models/drilling.py, with the users and locations that the service reads.
use cestos_oversight.Base.{ℕ, Option, List}
use cestos_oversight.Base.Int.{ℤ}
use cestos_oversight.Base.Text.{Text}

pub data ShiftReportStatus : Type 0 where
  draft submitted approved returned : ShiftReportStatus

pub data ShiftType : Type 0 where
  day night : ShiftType

pub data TimeCategory : Type 0 where
  productive standby maintenance non_productive : TimeCategory

pub data DrillHoleStatus : Type 0 where
  planned in_progress completed abandoned : DrillHoleStatus

pub record DrillHole : Type 0 where
  pub id : ℕ
  pub organization_id : ℕ
  pub project_id : ℕ
  pub site_location_id : Option ℕ
  pub target_depth_m : Option ℤ
  pub final_depth_m : Option ℤ
  pub status : DrillHoleStatus
  pub started_at : Option ℕ
  pub archived_at : Option ℕ

pub record DrillingShiftInterval : Type 0 where
  pub drill_hole_id : ℕ
  pub from_depth_m : ℤ
  pub to_depth_m : ℤ
  pub drilled_metres : ℤ
  pub core_recovered_m : Option ℤ
  pub core_recovery_pct : Option ℤ
  pub drilling_method : Option Text
  pub ground_conditions : Option Text

pub record DrillingShiftTimeSegment : Type 0 where
  pub category : TimeCategory
  pub reason_code : Text
  pub hours : ℤ
  pub comments : Option Text

pub record DrillingShiftCrew : Type 0 where
  pub employee_id : ℕ
  pub role_on_shift : Text
  pub hours_worked : ℤ

pub record DrillingShiftReport : Type 0 where
  pub id : ℕ
  pub site_location_id : Option ℕ
  pub project_id : ℕ
  pub rig_id : ℕ
  pub program_id : Option ℕ
  pub date : ℕ
  pub shift_type : ShiftType
  pub supervisor_id : Option ℕ
  pub status : ShiftReportStatus
  pub submitted_at : Option ℕ
  pub submitted_by_id : Option ℕ
  pub approved_at : Option ℕ
  pub approved_by_id : Option ℕ
  pub return_reason : Option Text
  pub correction_reason : Option Text
  pub total_metres : ℤ
  pub total_productive_hours : ℤ
  pub total_nonproductive_hours : ℤ
  pub avg_core_recovery_pct : Option ℤ
  pub notes : Option Text
  pub archived_at : Option ℕ
  pub updated_by_id : Option ℕ
  pub intervals : List DrillingShiftInterval
  pub time_segments : List DrillingShiftTimeSegment
  pub crew_members : List DrillingShiftCrew
