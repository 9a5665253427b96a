-- ===== src/Hse/Model.antt =====
-- The rows of app/models/maintenance_hse.py for incidents, and the requests on them.
use cestos_oversight.Base.{ℕ, Option, List}
use cestos_oversight.Base.Table.{Table}
use cestos_oversight.Base.Text.{Text}
use cestos_oversight.Counters.{Counters}
use cestos_oversight.Drilling.Store

pub data HseIncidentType : Type 0 where
  near_miss first_aid medical_treatment lost_time_injury environmental_spill property_damage
        fatality :
      HseIncidentType

pub data HseSeverity : Type 0 where
  low medium high critical : HseSeverity

pub data HseIncidentStatus : Type 0 where
  reported under_investigation corrective_action_pending closed : HseIncidentStatus

pub data HseActionStatus : Type 0 where
  opened in_progress under_review closed : HseActionStatus

pub record HseIncident : Type 0 where
  pub id : ℕ
  pub incident_number : Text
  pub title : Text
  pub incident_type : HseIncidentType
  pub severity : HseSeverity
  pub status : HseIncidentStatus
  pub occurred_at : ℕ
  pub project_id : ℕ
  pub site_location_id : Option ℕ
  pub asset_id : Option ℕ
  pub reported_by_id : ℕ
  pub description : Text
  pub immediate_actions_taken : Option Text
  pub root_cause_analysis : Option Text
  pub notes : Option Text
  pub archived_at : Option ℕ
  pub updated_by_id : Option ℕ

pub record HseCorrectiveAction : Type 0 where
  pub id : ℕ
  pub organization_id : ℕ
  pub action_number : Text
  pub incident_id : ℕ
  pub description : Text
  pub assigned_to_id : ℕ
  pub due_date : ℕ
  pub status : HseActionStatus
  pub closure_notes : Option Text
  pub closed_at : Option ℕ
  pub closed_by_id : Option ℕ

-- The sites are those of the drilling reports.
pub record Db : Type 0 where
  pub sites : Store.Db
  pub incidents : Table HseIncident
  pub actions : Table HseCorrectiveAction
  pub counters : Counters
  pub next_incident : ℕ
  pub next_action : ℕ

pub record ActionCreate : Type 0 where
  pub description : Text
  pub assigned_to_id : ℕ
  pub due_date : ℕ

pub record ActionUpdate : Type 0 where
  pub description : Option Text
  pub assigned_to_id : Option ℕ
  pub due_date : Option ℕ
  pub status : Option HseActionStatus
  pub closure_notes : Option Text

pub record IncidentCreate : Type 0 where
  pub title : Text
  pub incident_type : HseIncidentType
  pub severity : HseSeverity
  pub occurred_at : ℕ
  pub project_id : ℕ
  pub site_location_id : Option ℕ
  pub asset_id : Option ℕ
  pub reported_by_id : Option ℕ
  pub description : Text
  pub immediate_actions_taken : Option Text
  pub root_cause_analysis : Option Text
  pub notes : Option Text
  pub actions : List ActionCreate

pub record IncidentUpdate : Type 0 where
  pub title : Option Text
  pub incident_type : Option HseIncidentType
  pub severity : Option HseSeverity
  pub status : Option HseIncidentStatus
  pub description : Option Text
  pub immediate_actions_taken : Option Text
  pub root_cause_analysis : Option Text
  pub notes : Option Text
