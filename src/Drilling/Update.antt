-- ===== src/Drilling/Update.antt =====
-- `recalculate_shift_totals` and `update_shift_report` (app/services/drilling.py). A fraction of more
-- than two places is rounded where its column stores it, by the parameter `column_2`.
use cestos_oversight.Base.{
  ℕ, Option, none, some, List, [], ◌∷◌, Bool, true, false, not, ◌&&◌, ◌||◌, ◌==◌, is_set, get_or,
  any, map, if◌then◌else◌,
}
use cestos_oversight.Base.Int.{ℤ, pos, zero_ℤ, ltb_ℤ, leb_ℤ}
use cestos_oversight.Base.Decimal.{Decimal, scaled, ◌+ᵈ◌, ◌-ᵈ◌, ◌*ᵈ◌, ◌/ᵈ◌, ◌≤ᵈ◌, quantize}
use cestos_oversight.Base.Text.{Text, is_filled}
use cestos_oversight.Base.Action.{
  Action, value_error, validation, integrity, pure, gets, raise_if, ◌>>=◌, ◌>>◌,
}
use cestos_oversight.Drilling.Model.{
  ShiftType, TimeCategory, DrillingShiftInterval, DrillingShiftTimeSegment, DrillingShiftCrew,
  DrillingShiftReport,
}
use cestos_oversight.Commercial.Revenue.{is_category}
use cestos_oversight.Drilling.Store.{Db, Reach, report_of, save, validate_site_intervals}
use cestos_oversight.Drilling.Workflow.{is_approved}

unfoldable pub is_same_shift : ShiftType → ShiftType → Bool
is_same_shift ShiftType.day ShiftType.day = true
is_same_shift ShiftType.night ShiftType.night = true
is_same_shift _ _ = false

-- `DrillingShiftIntervalCreate`, and an interval of the report as the loop reads it
pub record IntervalCreate : Type 0 where
  pub drill_hole_id : ℕ
  pub from_depth_m : Decimal
  pub to_depth_m : Decimal
  pub core_recovered_m : Option Decimal
  pub drilling_method : Option Text
  pub ground_conditions : Option Text

pub record TimeSegmentCreate : Type 0 where
  pub category : TimeCategory
  pub reason_code : Text
  pub hours : Decimal
  pub comments : Option Text

pub record CrewCreate : Type 0 where
  pub employee_id : ℕ
  pub role_on_shift : Text
  pub hours_worked : Decimal

-- `DrillingShiftReportUpdate`; a site that is not among the fields of the request is `none`.
pub record ShiftReportUpdate : Type 0 where
  pub site_location_id : Option (Option ℕ)
  pub project_id : Option ℕ
  pub rig_id : Option ℕ
  pub program_id : Option ℕ
  pub date : Option ℕ
  pub shift_type : Option ShiftType
  pub supervisor_id : Option ℕ
  pub notes : Option Text
  pub correction_reason : Option Text
  pub total_metres : Option Decimal
  pub avg_core_recovery_pct : Option Decimal
  pub total_productive_hours : Option Decimal
  pub total_nonproductive_hours : Option Decimal
  pub intervals : Option (List IntervalCreate)
  pub time_segments : Option (List TimeSegmentCreate)
  pub crew_members : Option (List CrewCreate)

-- The bounds of the fields.
abbrev pub is_negative : Decimal → Bool
is_negative d = ltb_ℤ d.coefficient zero_ℤ

abbrev pub is_bad_interval : IntervalCreate → Bool
is_bad_interval i =
    is_negative i.from_depth_m
    || is_negative i.to_depth_m
    || (elim i.core_recovered_m [ none ↦ false | some c ↦ is_negative c ])

abbrev pub is_bad_hours : Decimal → Bool
is_bad_hours h = leb_ℤ h.coefficient zero_ℤ || not (h ≤ᵈ scaled 0 (pos 24))

abbrev pub is_bad : ShiftReportUpdate → Bool
is_bad p =
    any is_bad_interval (get_or p.intervals [])
    || any (λ (s : TimeSegmentCreate). is_bad_hours s.hours) (get_or p.time_segments [])
    || any (λ (c : CrewCreate). is_bad_hours c.hours_worked) (get_or p.crew_members [])

-- The sums of the loop over the intervals.
pub record Metres : Type 0 where
  pub total : Decimal
  pub recovered : Decimal
  pub with_recovery : Decimal

-- `part / whole * 100.0` to two places
unfoldable pub percentage : Decimal → Decimal → ℤ
unfolding ◌/ᵈ◌ ◌*ᵈ◌ quantize
percentage part whole = quantize 2 (part /ᵈ whole *ᵈ scaled 1 (pos 1000))

abbrev pub recovery : Option Decimal → Decimal → Option ℤ
recovery none drilled = none
recovery (some core) drilled =
    if leb_ℤ drilled.coefficient zero_ℤ then none else some (percentage core drilled)

unfoldable pub add_metres : Option Decimal → Decimal → Metres → Metres
unfolding ◌+ᵈ◌
add_metres none drilled m = record m { total = m.total +ᵈ drilled }
add_metres (some core) drilled m =
    if leb_ℤ drilled.coefficient zero_ℤ then record m { total = m.total +ᵈ drilled } else record {
      total = m.total +ᵈ drilled;
      recovered = m.recovered +ᵈ core;
      with_recovery = m.with_recovery +ᵈ drilled;
    }

-- The hours that are productive, and those that are not.
unfoldable pub sum_hours : List TimeSegmentCreate → Decimal × Decimal → Decimal × Decimal
unfolding ◌+ᵈ◌ is_category
sum_hours [] h = h
sum_hours (s ∷ ss) h = sum_hours ss (
    if is_category TimeCategory.productive s.category
    then (h.0 +ᵈ s.hours, h.1)
    else (h.0, h.1 +ᵈ s.hours))

abbrev pub row_interval : DrillingShiftInterval → IntervalCreate
row_interval i = record {
  drill_hole_id = i.drill_hole_id;
  from_depth_m = scaled 2 i.from_depth_m;
  to_depth_m = scaled 2 i.to_depth_m;
  core_recovered_m = (elim i.core_recovered_m [ none ↦ none | some c ↦ some (scaled 2 c) ]);
  drilling_method = i.drilling_method;
  ground_conditions = i.ground_conditions;
}

abbrev pub row_segment : DrillingShiftTimeSegment → TimeSegmentCreate
row_segment s = record {
  category = s.category;
  reason_code = s.reason_code;
  hours = scaled 2 s.hours;
  comments = s.comments;
}

abbrev pub reach : IntervalCreate → Reach
reach i = record { hole = i.drill_hole_id; to_depth_m = i.to_depth_m }

module _ (column_2 : Decimal → ℤ) where
  abbrev pub stored : Option Decimal → ℤ → ℤ
  stored none old = old
  stored (some d) old = column_2 d

  -- The loop over the intervals.
  unfoldable pub measure :
      List IntervalCreate → Metres → Action Db (List DrillingShiftInterval × Metres)
  unfolding add_metres percentage ◌-ᵈ◌
  measure [] m = pure ([], m)
  measure (i ∷ is) m = do
    let drilled = i.to_depth_m -ᵈ i.from_depth_m
    raise_if (is_negative drilled)
        (value_error "Interval to_depth_m cannot be less than from_depth_m.")
    rest ← measure is (add_metres i.core_recovered_m drilled m)
    let row : DrillingShiftInterval = record {
      drill_hole_id = i.drill_hole_id;
      from_depth_m = column_2 i.from_depth_m;
      to_depth_m = column_2 i.to_depth_m;
      drilled_metres = column_2 drilled;
      core_recovered_m = (elim i.core_recovered_m [ none ↦ none | some c ↦ some (column_2 c) ]);
      core_recovery_pct = recovery i.core_recovered_m drilled;
      drilling_method = i.drilling_method;
      ground_conditions = i.ground_conditions;
    }
    pure (row ∷ rest.0, rest.1)

  -- `recalculate_shift_totals`
  unfoldable pub recalculate :
      List IntervalCreate
      → List TimeSegmentCreate
      → DrillingShiftReport
      → Action Db DrillingShiftReport
  unfolding measure sum_hours percentage
  recalculate intervals segments report = do
    let none_yet : Metres = record {
      total = scaled 1 zero_ℤ;
      recovered = scaled 1 zero_ℤ;
      with_recovery = scaled 1 zero_ℤ;
    }
    measured ← measure intervals none_yet
    let hours = sum_hours segments (scaled 1 zero_ℤ, scaled 1 zero_ℤ)
    let metres = measured.1
    pure (record report {
      intervals = measured.0;
      total_metres = column_2 metres.total;
      total_productive_hours = column_2 hours.0;
      total_nonproductive_hours = column_2 hours.1;
      avg_core_recovery_pct =
          if leb_ℤ metres.with_recovery.coefficient zero_ℤ
          then none
          else some (percentage metres.recovered metres.with_recovery);
    })

  abbrev pub new_segment : TimeSegmentCreate → DrillingShiftTimeSegment
  new_segment s = record {
    category = s.category;
    reason_code = s.reason_code;
    hours = column_2 s.hours;
    comments = s.comments;
  }

  abbrev pub new_crew : CrewCreate → DrillingShiftCrew
  new_crew c = record {
    employee_id = c.employee_id;
    role_on_shift = c.role_on_shift;
    hours_worked = column_2 c.hours_worked;
  }

  -- The report with the fields that the request names.
  abbrev pub assigned : Option ℕ → ShiftReportUpdate → DrillingShiftReport → DrillingShiftReport
  assigned actor p r = record r {
    site_location_id = get_or p.site_location_id r.site_location_id;
    project_id = get_or p.project_id r.project_id;
    rig_id = get_or p.rig_id r.rig_id;
    date = get_or p.date r.date;
    shift_type = get_or p.shift_type r.shift_type;
    program_id = if is_set p.program_id then p.program_id else r.program_id;
    supervisor_id = if is_set p.supervisor_id then p.supervisor_id else r.supervisor_id;
    notes = if is_set p.notes then p.notes else r.notes;
    correction_reason =
        if is_set p.correction_reason then p.correction_reason else r.correction_reason;
    time_segments = (elim p.time_segments [
      | none ↦ r.time_segments
      | some ss ↦ map new_segment ss
    ]);
    crew_members = (elim p.crew_members [ none ↦ r.crew_members | some cs ↦ map new_crew cs ]);
    updated_by_id = actor;
  }

  -- The totals that the request names.
  abbrev pub overridden : ShiftReportUpdate → DrillingShiftReport → DrillingShiftReport
  overridden p r = record r {
    total_metres = stored p.total_metres r.total_metres;
    avg_core_recovery_pct = (elim p.avg_core_recovery_pct [
      | none ↦ r.avg_core_recovery_pct
      | some d ↦ some (column_2 d)
    ]);
    total_productive_hours = stored p.total_productive_hours r.total_productive_hours;
    total_nonproductive_hours = stored p.total_nonproductive_hours r.total_nonproductive_hours;
  }

  -- The intervals and the segments after the request, from it or from the rows.
  abbrev pub intervals_of : ShiftReportUpdate → DrillingShiftReport → List IntervalCreate
  intervals_of p r = get_or p.intervals (map row_interval r.intervals)

  abbrev pub segments_of : ShiftReportUpdate → DrillingShiftReport → List TimeSegmentCreate
  segments_of p r = get_or p.time_segments (map row_segment r.time_segments)

  unfoldable pub totalled :
      ShiftReportUpdate → DrillingShiftReport → DrillingShiftReport → Action Db DrillingShiftReport
  unfolding recalculate
  totalled p old r =
      if is_set p.intervals || is_set p.time_segments
      then recalculate (intervals_of p old) (segments_of p old) r
      else pure r

  -- The unique index `uq_drilling_shifts_rig_date_shift`: another report has the rig, the date and
  -- the shift.
  abbrev pub is_taken : DrillingShiftReport → Db → Bool
  is_taken r db =
      any
        (λ (q : DrillingShiftReport).
          not (q.id == r.id)
          && (q.rig_id == r.rig_id)
          && (q.date == r.date)
          && is_same_shift q.shift_type r.shift_type)
        db.reports

  -- `update_shift_report`
  unfoldable pub update : ℕ → Option ℕ → ℕ → ShiftReportUpdate → Action Db DrillingShiftReport
  unfolding report_of is_approved validate_site_intervals totalled is_same_shift save
  update org actor id p = do
    raise_if (is_bad p) (validation "Input should be greater than or equal to 0")
    report ← report_of id
    raise_if (is_approved report.status && not (is_filled p.correction_reason))
        (value_error "Corrections to an APPROVED shift report require a correction_reason.")
    validate_site_intervals org (get_or p.project_id report.project_id)
        (get_or p.site_location_id report.site_location_id) report.id
        (map reach (intervals_of p report))
    total ← totalled p report (assigned actor p report)
    let after = overridden p total
    taken ← gets (is_taken after)
    raise_if taken integrity
    save after
    pure after
