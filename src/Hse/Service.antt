-- ===== src/Hse/Service.antt =====
-- The operations on incidents and corrective actions (app/services/hse.py). The projects, assets
-- and employees that a request names are taken to exist.
use cestos_oversight.Base.{
  ℕ, suc, Option, none, some, List, [], ◌∷◌, Bool, true, false, not, ◌&&◌, ◌==◌, is_set, get_or,
  if◌then◌else◌,
}
use cestos_oversight.Base.Table.{put}
use cestos_oversight.Base.Text.{Text}
use cestos_oversight.Base.Action.{
  Action, ok, err, value_error, integrity, pure, gets, or_raise, modify, raise_if, state_after,
  ◌>>=◌, ◌>>◌,
}
use cestos_oversight.Counters.{EntityType, next_business_number}
use cestos_oversight.Drilling.Store.{require_site}
use cestos_oversight.Drilling.Store
use cestos_oversight.Hse.Model.{
  HseIncidentStatus, HseActionStatus, HseIncident, HseCorrectiveAction, Db, ActionCreate,
  ActionUpdate, IncidentCreate, IncidentUpdate,
}

-- A check of the site, on the tables that it reads.
unfoldable pub on_sites : {A : Type 0} → Action Store.Db A → Action Db A
on_sites m db = elim (m db.sites) [ ok r ↦ ok (r.0, record db { sites = r.1 }) | err e ↦ err e ]

-- `next_business_number`
unfoldable pub draw : ℕ → EntityType → Action Db Text
draw org type = do
  drawn ← gets (λ db. next_business_number org type db.counters)
  modify (λ db. record db { counters = drawn.1 })
  pure drawn.0

-- `get_incident`
abbrev pub live_incident : ℕ → Db → Option HseIncident
live_incident id db = elim (db.incidents id) [
  | none ↦ none
  | some i ↦ if is_set i.archived_at then none else some i
]

unfoldable pub incident_of : ℕ → Action Db HseIncident
incident_of id = do
  found ← gets (live_incident id)
  or_raise found (value_error "HSE incident not found.")

unfoldable pub save_incident : ℕ → HseIncident → Action Db (Unit {0})
save_incident id i = modify (λ db. record db { incidents = put id i db.incidents })

unfoldable pub save_action : ℕ → HseCorrectiveAction → Action Db (Unit {0})
save_action id a = modify (λ db. record db { actions = put id a db.actions })

-- A new row, under the next id.
unfoldable pub insert_action : (ℕ → HseCorrectiveAction) → Action Db HseCorrectiveAction
insert_action row db = ok (
  row db.next_action,
  record db {
    actions = put db.next_action (row db.next_action) db.actions;
    next_action = suc db.next_action;
  },
)

unfoldable pub insert_incident : (ℕ → HseIncident) → Action Db HseIncident
insert_incident row db = ok (
  row db.next_incident,
  record db {
    incidents = put db.next_incident (row db.next_incident) db.incidents;
    next_incident = suc db.next_incident;
  },
)

abbrev pub new_action : ℕ → ℕ → ActionCreate → Text → ℕ → HseCorrectiveAction
new_action org incident p number id = record {
  id = id;
  organization_id = org;
  action_number = number;
  incident_id = incident;
  description = p.description;
  assigned_to_id = p.assigned_to_id;
  due_date = p.due_date;
  status = HseActionStatus.opened;
  closure_notes = none;
  closed_at = none;
  closed_by_id = none;
}

unfoldable pub add_action : ℕ → ℕ → ActionCreate → Action Db HseCorrectiveAction
unfolding draw insert_action
add_action org incident p = do
  number ← draw org EntityType.hse_corrective_action
  insert_action (new_action org incident p number)

unfoldable pub add_actions : ℕ → ℕ → List ActionCreate → Action Db (Unit {0})
unfolding add_action
add_actions org incident [] = pure tt
add_actions org incident (p ∷ ps) = do _ ← add_action org incident p; add_actions org incident ps

-- `create_incident`; the column `reported_by_id` takes no null.
unfoldable pub create_incident : ℕ → Option ℕ → IncidentCreate → Action Db HseIncident
unfolding on_sites require_site draw insert_incident add_actions
create_incident org actor p = do
  on_sites (require_site p.project_id p.site_location_id)
  number ← draw org EntityType.hse_incident
  reporter ← or_raise p.reported_by_id integrity
  incident ← insert_incident (λ id. record {
    id = id;
    incident_number = number;
    title = p.title;
    incident_type = p.incident_type;
    severity = p.severity;
    status = HseIncidentStatus.reported;
    occurred_at = p.occurred_at;
    project_id = p.project_id;
    site_location_id = p.site_location_id;
    asset_id = p.asset_id;
    reported_by_id = reporter;
    description = p.description;
    immediate_actions_taken = p.immediate_actions_taken;
    root_cause_analysis = p.root_cause_analysis;
    notes = p.notes;
    archived_at = none;
    updated_by_id = actor;
  })
  add_actions org incident.id p.actions
  pure incident

-- A text that the request leaves out stays.
abbrev pub some_or : {A : Type 0} → Option A → Option A → Option A
some_or none old = old
some_or (some a) old = some a

-- `update_incident`
unfoldable pub update_incident : ℕ → Option ℕ → IncidentUpdate → Action Db HseIncident
unfolding incident_of save_incident
update_incident id actor p = do
  i ← incident_of id
  let after = record i {
    title = get_or p.title i.title;
    incident_type = get_or p.incident_type i.incident_type;
    severity = get_or p.severity i.severity;
    status = get_or p.status i.status;
    description = get_or p.description i.description;
    immediate_actions_taken = some_or p.immediate_actions_taken i.immediate_actions_taken;
    root_cause_analysis = some_or p.root_cause_analysis i.root_cause_analysis;
    notes = some_or p.notes i.notes;
    updated_by_id = actor;
  }
  save_incident id after
  pure after

-- `add_action_to_incident`
unfoldable pub add_action_to_incident : ℕ → ℕ → ActionCreate → Action Db HseCorrectiveAction
unfolding incident_of add_action
add_action_to_incident org id p = do _ ← incident_of id; add_action org id p

unfoldable pub is_closed : Option HseActionStatus → Bool
is_closed (some HseActionStatus.closed) = true
is_closed _ = false

-- The action once the request has closed it, where it does so for the first time.
unfoldable pub stamped :
    ℕ → Option ℕ → Option HseActionStatus → HseCorrectiveAction → HseCorrectiveAction
unfolding is_closed
stamped now actor status a =
    if is_closed status && not (is_set a.closed_at)
    then record a { closed_at = some now; closed_by_id = actor }
    else a

unfoldable pub edited : ℕ → Option ℕ → ActionUpdate → HseCorrectiveAction → HseCorrectiveAction
unfolding stamped
edited now actor p a = record (stamped now actor p.status a) {
  description = get_or p.description a.description;
  assigned_to_id = get_or p.assigned_to_id a.assigned_to_id;
  due_date = get_or p.due_date a.due_date;
  status = get_or p.status a.status;
  closure_notes = some_or p.closure_notes a.closure_notes;
}

-- `update_action`
unfoldable pub update_action : ℕ → Option ℕ → ℕ → ℕ → ActionUpdate → Action Db HseCorrectiveAction
unfolding edited save_action
update_action org actor now id p = do
  found ← gets (λ db. db.actions id)
  a ← or_raise found (value_error "HSE action not found.")
  raise_if (not (a.organization_id == org)) (value_error "HSE action not found.")
  save_action id (edited now actor p a)
  pure (edited now actor p a)

-- The requests that change incidents and actions.
pub data Request : Type 0 where
  reported : IncidentCreate → Request
  updated : ℕ → IncidentUpdate → Request
  action_added : ℕ → ActionCreate → Request
  action_updated : ℕ → ℕ → ActionUpdate → Request

-- A request, by a user.
unfoldable pub serve : ℕ → Option ℕ → Request → Action Db (Unit {0})
unfolding create_incident update_incident add_action_to_incident update_action
serve org actor (Request.reported p) = create_incident org actor p >> pure tt
serve org actor (Request.updated id p) = update_incident id actor p >> pure tt
serve org actor (Request.action_added id p) = add_action_to_incident org id p >> pure tt
serve org actor (Request.action_updated now id p) = update_action org actor now id p >> pure tt

-- One request after another, each with its user; one that fails leaves the tables as they were.
unfoldable pub serve_all : ℕ → List (Option ℕ × Request) → Db → Db
unfolding serve
serve_all org [] db = db
serve_all org (r ∷ rs) db = serve_all org rs (state_after (serve org r.0 r.1 db) db)
