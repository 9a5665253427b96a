-- ===== src/Drilling/Reads.antt =====
-- The calls on shift reports that only read the tables (app/services/drilling.py and
-- app/services/project_sites.py).
use cestos_oversight.Base.{ℕ, Option, none, some, List, [], ◌∷◌}
use cestos_oversight.Base.Int.{ℤ}
use cestos_oversight.Base.Decimal.{Decimal}
use cestos_oversight.Base.Keeps.{Keeps, Keeps-bind, keeps_rules}
use cestos_oversight.Drilling.Model.{DrillingShiftReport}
use cestos_oversight.Drilling.Store.{
  Db, Reach, report_of, require_site, check_reach, check_reaches, validate_site_intervals,
}
use cestos_oversight.Drilling.Update.{
  IntervalCreate, TimeSegmentCreate, Metres, ShiftReportUpdate, measure, recalculate, totalled,
}

module _ {P : Db → Type 0} where
  pub report_of-Keeps : (id : ℕ) → Keeps P (report_of id)
  unfolding report_of
  report_of-Keeps id = search keeps_rules

  require_site-Keeps : (project : ℕ) (site : Option ℕ) → Keeps P (require_site project site)
  unfolding require_site
  require_site-Keeps project none = search keeps_rules
  require_site-Keeps project (some id) = search keeps_rules

  check_reach-Keeps :
      (org project : ℕ) (site : Option ℕ) (shift : ℕ) (r : Reach)
      → Keeps P (check_reach org project site shift r)
  unfolding check_reach
  check_reach-Keeps org project site shift r = search keeps_rules

  check_reaches-Keeps :
      (org project : ℕ) (site : Option ℕ) (shift : ℕ) (rs : List Reach)
      → Keeps P (check_reaches org project site shift rs)
  unfolding check_reaches
  check_reaches-Keeps org project site shift [] = search keeps_rules
  check_reaches-Keeps org project site shift (r ∷ rs) =
      Keeps-bind _ _ (check_reach-Keeps org project site shift r)
        (λ u. check_reaches-Keeps org project site shift rs)

  pub validate-Keeps :
      (org project : ℕ) (site : Option ℕ) (shift : ℕ) (rs : List Reach)
      → Keeps P (validate_site_intervals org project site shift rs)
  unfolding validate_site_intervals
  validate-Keeps org project site shift rs =
      search (keeps_rules, require_site-Keeps, check_reaches-Keeps)

  module _ (column_2 : Decimal → ℤ) where
    pub measure-Keeps : (is : List IntervalCreate) (m : Metres) → Keeps P (measure column_2 is m)
    unfolding measure
    measure-Keeps [] m = search keeps_rules
    measure-Keeps (i ∷ is) m = search (keeps_rules, λ (n : Metres). measure-Keeps is n)

    pub recalculate-Keeps :
        (is : List IntervalCreate) (ss : List TimeSegmentCreate) (r : DrillingShiftReport)
        → Keeps P (recalculate column_2 is ss r)
    unfolding recalculate
    recalculate-Keeps is ss r = search (keeps_rules, measure-Keeps)

    pub totalled-Keeps :
        (p : ShiftReportUpdate) (old r : DrillingShiftReport) → Keeps P (totalled column_2 p old r)
    unfolding totalled
    totalled-Keeps p old r = search (keeps_rules, recalculate-Keeps)
