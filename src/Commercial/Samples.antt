-- ===== src/Commercial/Samples.antt =====
-- A shift report, a contract and their subledger, on which the theorems are tried.
use cestos_oversight.Base.{ℕ, none, some, [], ◌∷◌}
use cestos_oversight.Base.Int.{ℤ, pos}
use cestos_oversight.Base.Decimal.{Decimal, quantize}
use cestos_oversight.Drilling.Model.{
  ShiftReportStatus, ShiftType, TimeCategory, DrillingShiftInterval, DrillingShiftReport,
}
use cestos_oversight.Commercial.Model.{ContractStatus, RateType, ContractRateCard, ProjectContract}

-- A column that rounds half to even.
unfoldable pub column : Decimal → ℤ
unfolding quantize
column d = quantize 2 d

-- 25 metres, from the surface.
abbrev pub interval : DrillingShiftInterval
interval = record {
  drill_hole_id = 4;
  from_depth_m = pos 0;
  to_depth_m = pos 2500;
  drilled_metres = pos 2500;
  core_recovered_m = none;
  core_recovery_pct = none;
  drilling_method = some (b'R' ∷ b'C' ∷ []);
  ground_conditions = none;
}

abbrev pub report : DrillingShiftReport
report = record {
  id = 1;
  site_location_id = none;
  project_id = 3;
  rig_id = 2;
  program_id = none;
  date = 20;
  shift_type = ShiftType.day;
  supervisor_id = none;
  status = ShiftReportStatus.submitted;
  submitted_at = some 20;
  submitted_by_id = some 8;
  approved_at = none;
  approved_by_id = none;
  return_reason = none;
  correction_reason = none;
  total_metres = pos 2500;
  total_productive_hours = pos 1000;
  total_nonproductive_hours = pos 200;
  avg_core_recovery_pct = none;
  notes = none;
  archived_at = none;
  updated_by_id = none;
  intervals = interval ∷ [];
  time_segments =
      record {
        category = TimeCategory.standby;
        reason_code = b'w' ∷ [];
        hours = pos 200;
        comments = none;
      }
      ∷ [];
  crew_members = [];
}

-- A card for the metres of a band of depths.
abbrev pub card : ℕ → ℤ → ℤ → ContractRateCard
card id from to = record {
  id = id;
  rate_type = RateType.drilling_meter;
  drilling_method = some (b'r' ∷ b'c' ∷ []);
  depth_from_m = some from;
  depth_to_m = some to;
  unit_rate = pos 8000;
}

abbrev pub fee : ContractRateCard
fee = record {
  id = 9;
  rate_type = RateType.mobilization_flat;
  drilling_method = none;
  depth_from_m = none;
  depth_to_m = none;
  unit_rate = pos 500000;
}

abbrev pub upper : ContractRateCard
upper = card 7 (pos 0) (pos 1000)

abbrev pub lower : ContractRateCard
lower = card 8 (pos 1000) (pos 5000)

abbrev pub contract : ProjectContract
contract = record {
  id = 6;
  project_id = 3;
  currency = b'U' ∷ b'S' ∷ b'D' ∷ [];
  start_date = 1;
  status = ContractStatus.active;
  archived_at = none;
  rate_cards = upper ∷ lower ∷ fee ∷ [];
}
