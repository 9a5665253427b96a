-- ===== src/Hse/Closure.antt =====
-- The closure of a corrective action is recorded once (app/services/hse.py).
use cestos_oversight.Base.{
  ℕ, suc, ◌≤◌, ◌≡◌, refl, ap, sym, ◌∙◌, Option, some, List, [], ◌∷◌, true, false, arith, inl, inr,
  Bool-cases, ◌==◌, is_set,
}
use cestos_oversight.Base.Table.{Table}
use cestos_oversight.Base.Action.{Action, Result, ok, err, state_after, modify}
use cestos_oversight.Base.Keeps.{Keeps, After, Keeps-bind, Keeps-modify, keeps_rules}
use cestos_oversight.Base.Leads.{Leads, Leads-bind, Keeps-Leads}
use cestos_oversight.Base.Gives.{Gives-gets, Gives-or_raise, Gives-raise_if, Gives-Leads}
use cestos_oversight.Counters.{Counters, EntityType}
use cestos_oversight.Drilling.Store
use cestos_oversight.Hse.Model.{
  HseIncident, HseCorrectiveAction, Db, ActionCreate, ActionUpdate, IncidentCreate, IncidentUpdate,
}
use cestos_oversight.Hse.Service.{
  on_sites, draw, incident_of, save_incident, save_action, insert_action, insert_incident,
  add_action, add_actions, create_incident, update_incident, add_action_to_incident, is_closed,
  stamped, edited, update_action, Request, serve, serve_all,
}

edited_closure :
    (now : ℕ) (actor : Option ℕ) (p : ActionUpdate) (a : HseCorrectiveAction)
    → is_set a.closed_at ≡ true
    → ((edited now actor p a).closed_at ≡ a.closed_at)
      × ((edited now actor p a).closed_by_id ≡ a.closed_by_id)
unfolding edited stamped
edited_closure now actor p a h = elim (Bool-cases (is_closed p.status)) [
  | inl e ↦ rw (e, h) (refl, refl)
  | inr e ↦ rw e (refl, refl)
]

-- The action `j` was closed at `t` by `u`.
pub record IsClosedAt (j t : ℕ) (u : Option ℕ) (db : Db) : Type 0 where
  pub row : HseCorrectiveAction
  pub stored : db.actions j ≡ some row
  pub at_time : row.closed_at ≡ some t
  pub by_user : row.closed_by_id ≡ u
  pub early : suc j ≤ db.next_action

module _ (j t : ℕ) (u : Option ℕ) where
  abbrev P : Db → Type 0
  P = IsClosedAt j t u

  moved : (s s' : Db) → s'.actions ≡ s.actions → s'.next_action ≡ s.next_action → P s → P s'
  moved s s' same next h = record {
    row = h.row;
    stored = ap (λ (f : Table HseCorrectiveAction). f j) same ∙ h.stored;
    at_time = h.at_time;
    by_user = h.by_user;
    early = omega (arith, h.early, next);
  }

  unmoved :
      (f : Db → Db)
      → ((s : Db) → ((f s).actions ≡ s.actions) × ((f s).next_action ≡ s.next_action))
      → Keeps P (modify f)
  unmoved f same = Keeps-modify f (λ s h. moved s (f s) (same s).0 (same s).1 h)

  carried :
      {A : Type 0} (r : Result (A × Store.Db)) (s : Db)
      → P s
      → After P (elim r [ ok r ↦ ok (r.0, record s { sites = r.1 }) | err e ↦ err e ])
  carried (ok r) s h = moved s (record s { sites = r.1 }) refl refl h
  carried (err e) s h = tt

  on_sites-P : {A : Type 0} (m : Action Store.Db A) → Keeps P (on_sites m)
  unfolding on_sites
  on_sites-P m = record { at = λ s h. carried (m s.sites) s h }

  counters-P : (c : Counters) → Keeps P (modify (λ db. record db { counters = c }))
  counters-P c = unmoved _ (λ s. (refl, refl))

  save_incident-P : (id : ℕ) (i : HseIncident) → Keeps P (save_incident id i)
  unfolding save_incident
  save_incident-P id i = unmoved _ (λ s. (refl, refl))

  insert_incident-P : (row : ℕ → HseIncident) → Keeps P (insert_incident row)
  unfolding insert_incident
  insert_incident-P row = record { at = λ s h. moved s _ refl refl h }

  insert_action-P : (row : ℕ → HseCorrectiveAction) → Keeps P (insert_action row)
  unfolding insert_action
  insert_action-P row = record {
    at = λ s h.
        let early : suc j ≤ s.next_action = h.early in
        let other : (j == s.next_action) ≡ false = ground arith in
        record {
          row = h.row;
          stored = rw other h.stored;
          at_time = h.at_time;
          by_user = h.by_user;
          early = omega (arith, early);
        };
  }

  ruleset rules =
      (keeps_rules, counters-P, on_sites-P, save_incident-P, insert_incident-P, insert_action-P)

  draw-P : (org : ℕ) (type : EntityType) → Keeps P (draw org type)
  unfolding draw
  draw-P org type = search rules

  add_action-P : (org id : ℕ) (p : ActionCreate) → Keeps P (add_action org id p)
  unfolding add_action
  add_action-P org id p = search (rules, draw-P)

  add_actions-P : (org id : ℕ) (ps : List ActionCreate) → Keeps P (add_actions org id ps)
  unfolding add_actions
  add_actions-P org id [] = search rules
  add_actions-P org id (p ∷ ps) =
      Keeps-bind _ _ (add_action-P org id p) (λ _. add_actions-P org id ps)

  create_incident-P :
      (org : ℕ) (actor : Option ℕ) (p : IncidentCreate) → Keeps P (create_incident org actor p)
  unfolding create_incident
  create_incident-P org actor p = search (rules, draw-P, add_actions-P) depth 12

  incident_of-P : (id : ℕ) → Keeps P (incident_of id)
  unfolding incident_of
  incident_of-P id = search rules

  update_incident-P :
      (id : ℕ) (actor : Option ℕ) (p : IncidentUpdate) → Keeps P (update_incident id actor p)
  unfolding update_incident
  update_incident-P id actor p = search (rules, incident_of-P)

  add_action_to_incident-P :
      (org id : ℕ) (p : ActionCreate) → Keeps P (add_action_to_incident org id p)
  unfolding add_action_to_incident
  add_action_to_incident-P org id p = search (rules, incident_of-P, add_action-P)

  module _ (T : Table HseCorrectiveAction) where
    abbrev Held : Db → Type 0
    Held db = (db.actions ≡ T) × P db

    save-Leads :
        (now id : ℕ) (actor : Option ℕ) (p : ActionUpdate) (a : HseCorrectiveAction)
        → T id ≡ some a
        → Leads Held P (save_action id (edited now actor p a))
    unfolding save_action modify
    save-Leads now id actor p a row = record {
      at = λ s h. elim (Bool-cases (j == id)) [
        | inl e ↦
            let at_id : j ≡ id = ground arith in
            let old : some h.1.row ≡ some a =
              sym h.1.stored ∙ ap (λ (f : Table HseCorrectiveAction). f j) h.0 ∙ ap T at_id ∙ row in
            let eq : a ≡ h.1.row = cc in
            let dated : a.closed_at ≡ some t =
              ap (λ (b : HseCorrectiveAction). b.closed_at) eq ∙ h.1.at_time in
            let user : a.closed_by_id ≡ u =
              ap (λ (b : HseCorrectiveAction). b.closed_by_id) eq ∙ h.1.by_user in
            let closure = edited_closure now actor p a (rw dated refl) in
            record {
              row = edited now actor p a;
              stored = rw e refl;
              at_time = closure.0 ∙ dated;
              by_user = closure.1 ∙ user;
              early = h.1.early;
            }
        | inr e ↦ record {
          row = h.1.row;
          stored = rw e h.1.stored;
          at_time = h.1.at_time;
          by_user = h.1.by_user;
          early = h.1.early;
        }
      ];
    }

    update_action-Leads :
        (org now id : ℕ) (actor : Option ℕ) (p : ActionUpdate)
        → Leads Held P (update_action org actor now id p)
    unfolding update_action
    update_action-Leads org now id actor p =
        Gives-Leads {R = λ o. (a : HseCorrectiveAction) → o ≡ some a → T id ≡ some a}
          (Gives-gets (λ db. db.actions id)
            (λ s h a row. ap (λ (f : Table HseCorrectiveAction). f id) (sym h.0) ∙ row))
          (λ found row. Gives-Leads (Gives-or_raise found _ row) (λ a stored.
            Gives-Leads (Gives-raise_if _ _) (λ _ ours.
              Leads-bind _ _ (save-Leads now id actor p a stored)
                (λ _. Keeps-Leads _ (search keeps_rules)))))

  update_action-P :
      (org now id : ℕ) (actor : Option ℕ) (p : ActionUpdate)
      → Keeps P (update_action org actor now id p)
  update_action-P org now id actor p = record {
    at = λ s h. (update_action-Leads s.actions org now id actor p).at s (refl, h);
  }

  serve-P : (org : ℕ) (actor : Option ℕ) (r : Request) → Keeps P (serve org actor r)
  unfolding serve
  serve-P org actor (Request.reported p) = search (keeps_rules, create_incident-P)
  serve-P org actor (Request.updated id p) = search (keeps_rules, update_incident-P)
  serve-P org actor (Request.action_added id p) = search (keeps_rules, add_action_to_incident-P)
  serve-P org actor (Request.action_updated now id p) = search (keeps_rules, update_action-P)

  kept_outcome :
      {A : Type 0} (r : Result (A × Db)) (db : Db) → P db → After P r → P (state_after r db)
  kept_outcome (ok r) db h k = k
  kept_outcome (err e) db h k = h

  -- Once a corrective action has been closed at a time by a user, it keeps that time and that user
  -- whatever requests follow (incidents reported and edited, actions added and edited, reopened or
  -- closed again, by any users), some of which may fail.
  pub closure_stays :
      (org : ℕ) (rs : List (Option ℕ × Request)) (db : Db)
      → IsClosedAt j t u db
      → IsClosedAt j t u (serve_all org rs db)
  unfolding serve_all
  closure_stays org [] db h = h
  closure_stays org (r ∷ rs) db h =
      closure_stays org rs (state_after (serve org r.0 r.1 db) db)
        (kept_outcome (serve org r.0 r.1 db) db h ((serve-P org r.0 r.1).at db h))
