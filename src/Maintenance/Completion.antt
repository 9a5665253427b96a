-- ===== src/Maintenance/Completion.antt =====
-- When a completion succeeds, and what a second one does (app/services/maintenance.py).
use cestos_oversight.Base.{
  ℕ, ◌+◌, ltb, length, ◌≡◌, refl, ap, sym, ◌∙◌, Option, none, some, Bool, true, false, not, ◌&&◌,
  ◌||◌, any, [], ◌∷◌, ◌++◌, is_set, if◌then◌else◌, arith, inl, inr, ◌==◌, Bool-cases,
}
use mathlib.Core.Path.{subst}
use cestos_oversight.Base.Int.{ℤ}
use cestos_oversight.Base.Decimal.{Decimal}
use cestos_oversight.Base.Action.{Result, ok, err, ◌>>=◌}
use cestos_oversight.Maintenance.Model.{
  WorkOrderCostLine, MaintenanceWorkOrder, Db, CompleteRequest,
}
use cestos_oversight.Maintenance.Orders.{
  live_work_order, work_order, is_completed, is_unposted, is_unfit, is_unfit_entry, overflows,
  cost_entries, cost_project, is_bad_completion, notify,
}
use cestos_oversight.Maintenance.Work.{
  nonzero_or, completed_order, write_completion, complete_open, complete,
}
use cestos_oversight.Maintenance.Costs.{Balanced}
use cestos_oversight.Maintenance.Kept.{live_row}

-- A line whose entry would be too long: the entry's text adds five characters to the number of the
-- order and the description of the line.
abbrev pub is_wordy : MaintenanceWorkOrder → WorkOrderCostLine → Bool
is_wordy wo l = is_unposted l && ltb 255 (length wo.wo_number + length l.description + 5)

module _ (column_2 : Decimal → ℤ) (p : CompleteRequest) where
  -- What the request asks of the columns of the order, and what its lines ask of their entries.
  abbrev pub fits : MaintenanceWorkOrder → Bool
  fits wo =
      not (overflows 10 (nonzero_or column_2 p.downtime_hours wo.downtime_hours))
      && not (
          overflows 14
            (nonzero_or column_2 p.estimated_lost_contribution wo.estimated_lost_contribution))
      && not (any (is_wordy wo) wo.cost_lines)

  -- An order that a completion accepts: one that is completed already, or one whose rows fit, and
  -- whose lines are all posted or have a project for their costs.
  abbrev pub completable : Db → Option MaintenanceWorkOrder → Bool
  completable db none = false
  completable db (some wo) =
      is_completed wo.status
      || (fits wo && (not (any is_unposted wo.cost_lines) || db.is_project (cost_project wo)))

-- What a completion returns is the order that is then there, and it is completed.
abbrev Settled : ℕ → Result (MaintenanceWorkOrder × Db) → Type 0
Settled id (ok r) = (live_work_order id r.1 ≡ some r.0) × (is_completed r.0.status ≡ true)
Settled id (err e) = Unit

live_at :
    (id : ℕ) (db : Db) (wo : MaintenanceWorkOrder)
    → live_work_order id db ≡ some wo
    → is_set wo.archived_at ≡ false
live_at id db wo h = shown (db.orders id) h
  where
    shown :
        (o : Option MaintenanceWorkOrder)
        → elim o [ none ↦ none | some w ↦ if is_set w.archived_at then none else some w ] ≡ some wo
        → is_set wo.archived_at ≡ false
    shown none h = cc
    shown (some w) h = elim (Bool-cases (is_set w.archived_at)) [
      | inl e ↦ let absurd : none ≡ some wo = sym (rw e refl) ∙ h in cc
      | inr e ↦
          let eq : some w ≡ some wo = sym (rw e refl) ∙ h in
          let same : w ≡ wo = cc in
          sym (ap (λ (v : MaintenanceWorkOrder). is_set v.archived_at) same) ∙ e
    ]

written_live :
    (id : ℕ) (after : MaintenanceWorkOrder) (db : Db)
    → db.orders id ≡ some after
    → is_set after.archived_at ≡ false
    → live_work_order id db ≡ some after
written_live id after db row live =
    subst
      (λ o.
        elim o [ none ↦ none | some w ↦ if is_set w.archived_at then none else some w ]
        ≡ some after)
      (sym row) (rw live refl)

module _ (column_2 : Decimal → ℤ) (org : ℕ) where
  module _ (user now : ℕ) (p : CompleteRequest) where
    open-Settled :
        (id : ℕ) (db : Db) (wo : MaintenanceWorkOrder)
        → Balanced db
        → live_work_order id db ≡ some wo
        → Settled id (complete_open column_2 org user now p wo db)
    unfolding complete_open write_completion completed_order notify is_completed ◌>>=◌
    open-Settled id db wo h e =
        let row = live_row id db wo e in
        let at_id : wo.id ≡ id = h.keyed id wo row in
        let live = live_at id db wo e in
        let after : Db = record (write_completion column_2 org user now p wo db) {
          notified = db.notified ++ wo.id ∷ [];
        } in
        let here : (id == wo.id) ≡ true = ground arith in
        elim (Bool-cases (is_unfit (completed_order column_2 user now p wo))) [
          | inl a ↦ rw a tt
          | inr a ↦
              elim (Bool-cases (any is_unfit_entry (cost_entries wo user now wo.cost_lines))) [
                | inl b ↦ rw (a, b) tt
                | inr b ↦
                    elim (Bool-cases
                      (any is_unposted wo.cost_lines && not (db.is_project (cost_project wo)))) [
                        | inl f ↦ rw (a, b, f) tt
                        | inr f ↦
                            rw (a, b, f)
                              (
                                written_live id (completed_order column_2 user now p wo) after
                                    (rw here refl) live,
                                refl,
                              )
                      ]
              ]
        ]

    complete-Settled :
        (id : ℕ) (db : Db) (o : Option MaintenanceWorkOrder)
        → Balanced db
        → live_work_order id db ≡ o
        → Settled id (complete column_2 org user now id p db)
    unfolding complete work_order ◌>>=◌
    complete-Settled id db none h e = elim (Bool-cases (is_bad_completion p)) [
      | inl f ↦ rw f tt
      | inr f ↦ rw (f, e) tt
    ]
    complete-Settled id db (some wo) h e = elim (Bool-cases (is_bad_completion p)) [
      | inl f ↦ rw f tt
      | inr f ↦ elim (Bool-cases (is_completed wo.status)) [
        | inl g ↦ rw (f, e, g) (e, g)
        | inr g ↦ rw (f, e, g) (open-Settled id db wo h e)
      ]
    ]

    again :
        (id : ℕ) (db : Db) (wo : MaintenanceWorkOrder)
        → live_work_order id db ≡ some wo
        → is_completed wo.status ≡ true
        → is_bad_completion p ≡ false
        → complete column_2 org user now id p db ≡ ok (wo, db)
    unfolding complete work_order ◌>>=◌
    again id db wo e g f = rw (f, e, g) refl

  -- Once an order is completed, another completion of it, by any user, at any time and with any
  -- request that is not refused for a negative number, returns the order as it stands and changes
  -- nothing: no cost is posted, no defect resolved and nobody notified a second time.
  pub complete_twice :
      (user user' now now' id : ℕ) (p p' : CompleteRequest) (db db' : Db)
      (wo : MaintenanceWorkOrder)
      → Balanced db
      → complete column_2 org user now id p db ≡ ok (wo, db')
      → is_bad_completion p' ≡ false
      → complete column_2 org user' now' id p' db' ≡ ok (wo, db')
  complete_twice user user' now now' id p p' db db' wo h done good =
      let settled =
        subst (Settled id) done
          (complete-Settled user now p id db (live_work_order id db) h refl) in
      again user' now' p' id db' wo settled.0 settled.1 good
