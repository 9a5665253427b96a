-- ===== src/Drilling/Store.antt =====
-- The tables that the shift reports of an organization read and write (app/services/drilling.py and
-- app/services/project_sites.py).
use cestos_oversight.Base.{
  ℕ, Option, none, some, List, [], ◌∷◌, Bool, true, false, not, ◌&&◌, ◌||◌, ◌==◌, is_set, same_id,
  find, update_first, if◌then◌else◌,
}
use cestos_oversight.Base.Int.{ℤ, zero_ℤ, ◌=ℤ◌, leb_ℤ, max_ℤ}
use cestos_oversight.Base.Decimal.{Decimal, scaled, ◌≤ᵈ◌}
use cestos_oversight.Base.Table.{Table}
use cestos_oversight.Base.Text.{Text}
use cestos_oversight.Base.Action.{
  Action, value_error, pure, gets, or_raise, modify, raise_if, ◌>>=◌, ◌>>◌,
}
use cestos_oversight.Commercial.Model.{ProjectContract, RevenueSubledgerEntry}
use cestos_oversight.Drilling.Model.{DrillHole, DrillingShiftInterval, DrillingShiftReport}

pub record Role : Type 0 where
  pub organization_id : Option ℕ
  pub name : Text
  pub permissions : List Text

pub record User : Type 0 where
  pub is_superuser : Bool
  pub roles : List Role

pub data LocationType : Type 0 where
  head_office workshop warehouse project_site yard fuel_storage other : LocationType

pub record Location : Type 0 where
  pub project_id : Option ℕ
  pub location_type : LocationType
  pub is_active : Bool
  pub archived_at : Option ℕ

pub record Db : Type 0 where
  pub users : Table User
  pub locations : Table Location
  pub holes : Table DrillHole
  pub reports : List DrillingShiftReport
  pub contracts : List ProjectContract
  pub revenue : List RevenueSubledgerEntry

abbrev pub is_report : ℕ → DrillingShiftReport → Bool
is_report id r = r.id == id

-- `get_shift_report`, less the names that it adds for the reader.
abbrev pub live_report : ℕ → Db → Option DrillingShiftReport
live_report id db = elim (find (is_report id) db.reports) [
  | none ↦ none
  | some r ↦ if is_set r.archived_at then none else some r
]

unfoldable pub report_of : ℕ → Action Db DrillingShiftReport
report_of id = do
  found ← gets (live_report id)
  or_raise found (value_error "Shift report not found.")

-- The row is written back.
unfoldable pub save : DrillingShiftReport → Action Db (Unit {0})
save r = modify (λ db. record db { reports = update_first (is_report r.id) (λ _. r) db.reports })

unfoldable pub is_head_office : LocationType → Bool
is_head_office LocationType.head_office = true
is_head_office _ = false

-- The conditions of the query of `require_site`.
abbrev pub is_site : ℕ → Location → Bool
is_site project l =
    same_id l.project_id (some project)
    && l.is_active
    && not (is_set l.archived_at)
    && not (is_head_office l.location_type)

abbrev pub site_row : ℕ → ℕ → Db → Bool
site_row project id db = elim (db.locations id) [ none ↦ false | some l ↦ is_site project l ]

-- `require_site`
unfoldable pub require_site : ℕ → Option ℕ → Action Db (Unit {0})
unfolding is_head_office
require_site project none = pure tt
require_site project (some id) = do
  linked ← gets (site_row project id)
  raise_if (not linked) (value_error "Select an active site linked to this project")

-- The deepest end of intervals in a hole, and of those of the other reports that are not archived.
unfoldable pub deepest_in : ℕ → List DrillingShiftInterval → ℤ → ℤ
unfolding max_ℤ
deepest_in hole [] d = d
deepest_in hole (iv ∷ ivs) d =
    deepest_in hole ivs (if iv.drill_hole_id == hole then max_ℤ iv.to_depth_m d else d)

unfoldable pub previous : ℕ → ℕ → List DrillingShiftReport → ℤ
unfolding deepest_in
previous shift hole [] = zero_ℤ
previous shift hole (r ∷ rs) =
    let d = previous shift hole rs in
    if is_set r.archived_at || r.id == shift then d else deepest_in hole r.intervals d

-- What an interval of a request says of its hole.
pub record Reach : Type 0 where
  pub hole : ℕ
  pub to_depth_m : Decimal

abbrev pub site_hole : ℕ → ℕ → Option ℕ → ℕ → Db → Option DrillHole
site_hole org project site id db = elim (db.holes id) [
  | none ↦ none
  | some h ↦
      if (h.organization_id == org)
        && (h.project_id == project)
        && not (is_set h.archived_at)
        && same_id h.site_location_id site
      then some h
      else none
]

abbrev pub exceeds : ℤ → Option ℤ → Decimal → Bool
exceeds before none to = false
exceeds before (some target) to =
    not (target =ℤ zero_ℤ) && (leb_ℤ target before || not (to ≤ᵈ scaled 2 target))

unfoldable pub check_reach : ℕ → ℕ → Option ℕ → ℕ → Reach → Action Db (Unit {0})
unfolding previous
check_reach org project site shift reach = do
  found ← gets (site_hole org project site reach.hole)
  hole ←
      or_raise found (value_error "Every drill hole must belong to the selected project and site")
  before ← gets (λ db. previous shift hole.id db.reports)
  raise_if (exceeds before hole.target_depth_m reach.to_depth_m)
      (value_error "Drill hole has reached its target or the interval exceeds it")

unfoldable pub check_reaches : ℕ → ℕ → Option ℕ → ℕ → List Reach → Action Db (Unit {0})
unfolding check_reach
check_reaches org project site shift [] = pure tt
check_reaches org project site shift (reach ∷ rest) = do
  check_reach org project site shift reach
  check_reaches org project site shift rest

-- `validate_site_intervals`, for a report that exists
unfoldable pub validate_site_intervals : ℕ → ℕ → Option ℕ → ℕ → List Reach → Action Db (Unit {0})
unfolding require_site check_reaches
validate_site_intervals org project site shift reaches = do
  require_site project site
  check_reaches org project site shift reaches
