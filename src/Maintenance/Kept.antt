-- ===== src/Maintenance/Kept.antt =====
-- Requests on work orders keep the cost subledger in balance (app/services/maintenance.py).
use cestos_oversight.Base.{
  ℕ, ◌≡◌, refl, ap, ◌∙◌, Option, none, some, List, [], ◌∷◌, Bool, true, false, arith, if◌then◌else◌,
  is_set,
}
use cestos_oversight.Base.Int.{ℤ}
use cestos_oversight.Base.Decimal.{Decimal}
use cestos_oversight.Base.Table.{Table}
use cestos_oversight.Base.Action.{Action, Error, Result, ok, err, pure, state_after, modify}
use cestos_oversight.Base.Keeps.{Keeps, After, Keeps-modify, keeps_rules}
use cestos_oversight.Base.Leads.{Leads, Leads-bind, Leads-gets, Keeps-Leads}
use cestos_oversight.Base.Gives.{
  Gives, Gives-bind, Gives-gets, Gives-or_raise, Gives-raise_if, Gives-Leads,
}
use cestos_oversight.Base.Text.{Text}
use cestos_oversight.Counters.{Counters}
use cestos_oversight.Maintenance.Model.{
  MaintenanceWorkOrder, Db, CostLineCreate, WorkOrderCreate, WorkOrderUpdate, CompleteRequest,
}
use cestos_oversight.Maintenance.Orders.{
  live_work_order, work_order, save_work_order, insert_work_order, notify, is_completed,
}
use cestos_oversight.Maintenance.Work.{
  new_order, create, add_cost_line, update, completed_order, write_completion, complete_open,
  complete, Request, serve, serve_all,
}
use cestos_oversight.Maintenance.Costs.{
  Cost, posted_count, Balanced, written-IsBalanced, completed-IsBalanced, inserted-IsBalanced,
  posted_count-new_lines, posted_count_added,
}

notify-Balanced : (id : ℕ) → Keeps Balanced (notify id)
unfolding notify
notify-Balanced id = Keeps-modify _ (λ s h. h)

pub live_row :
    (id : ℕ) (s : Db) (wo : MaintenanceWorkOrder)
    → live_work_order id s ≡ some wo
    → s.orders id ≡ some wo
live_row id s wo h = shown (s.orders id) h
  where
    shown :
        (o : Option MaintenanceWorkOrder)
        → elim o [ none ↦ none | some w ↦ if is_set w.archived_at then none else some w ] ≡ some wo
        → o ≡ some wo
    shown none h = h
    shown (some w) h = ground arith

module _ (T : Table MaintenanceWorkOrder) where
  abbrev Held : Db → Type 0
  Held db = (db.orders ≡ T) × Balanced db

  work_order-Held : (id : ℕ) (e : Error) → Gives Held (λ wo. T id ≡ some wo) (work_order id e)
  unfolding work_order
  work_order-Held id e =
      Gives-bind {R = λ o. (wo : MaintenanceWorkOrder) → o ≡ some wo → T id ≡ some wo}
        (Gives-gets (live_work_order id)
          (λ s h wo row. let stored = live_row id s wo row in let same = h.0 in cc))
        (λ found row. Gives-or_raise found e row)

  save-Leads :
      (id : ℕ) (wo after : MaintenanceWorkOrder)
      → T id ≡ some wo
      → after.id ≡ wo.id
      → ((p : Cost → Bool) → posted_count p after.cost_lines ≡ posted_count p wo.cost_lines)
      → Leads Held Balanced (save_work_order after)
  unfolding save_work_order modify
  save-Leads id wo after row same lines = record {
    at = λ s h. written-IsBalanced h.1 id wo after (ap (λ t. t id) h.0 ∙ row) same lines;
  }

  module _ (column_2 : Decimal → ℤ) where
    write-Leads :
        (org user now id : ℕ) (p : CompleteRequest) (wo : MaintenanceWorkOrder)
        → T id ≡ some wo
        → Leads Held Balanced (modify (write_completion column_2 org user now p wo))
    unfolding modify write_completion completed_order
    write-Leads org user now id p wo row = record {
      at = λ s h.
          completed-IsBalanced h.1 id user now wo (completed_order column_2 user now p wo)
            (ap (λ t. t id) h.0 ∙ row) refl refl;
    }

    complete_open-Leads :
        (org user now id : ℕ) (p : CompleteRequest) (wo : MaintenanceWorkOrder)
        → T id ≡ some wo
        → Leads Held Balanced (complete_open column_2 org user now p wo)
    unfolding complete_open
    complete_open-Leads org user now id p wo row = Gives-Leads (Gives-raise_if _ _) (λ _ fits.
        Gives-Leads (Gives-raise_if _ _) (λ _ short. Leads-gets _ _ (λ s h.
          Gives-Leads (Gives-raise_if _ _) (λ _ known.
            Leads-bind _ _ (write-Leads org user now id p wo row)
              (λ u. Keeps-Leads _ (search (keeps_rules, notify-Balanced)))))))

    leaves :
        (b : Bool) (wo : MaintenanceWorkOrder) (m : Action Db MaintenanceWorkOrder)
        → Leads Held Balanced m
        → Leads Held Balanced (if b then pure wo else m)
    unfolding pure
    leaves true wo m k = record { at = λ s h. h.1 }
    leaves false wo m k = k

    complete-Leads :
        (org user now id : ℕ) (p : CompleteRequest)
        → Leads Held Balanced (complete column_2 org user now id p)
    unfolding complete
    complete-Leads org user now id p = Gives-Leads (Gives-raise_if _ _) (λ _ good.
        Gives-Leads (work_order-Held id _) (λ wo row.
          leaves (is_completed wo.status) wo _ (complete_open-Leads org user now id p wo row)))

    add_cost_line-Leads :
        (id : ℕ) (l : CostLineCreate) → Leads Held Balanced (add_cost_line column_2 id l)
    unfolding add_cost_line
    add_cost_line-Leads id l = Gives-Leads (Gives-raise_if _ _) (λ _ good.
        Gives-Leads (work_order-Held id _) (λ wo row. Gives-Leads (Gives-raise_if _ _) (λ _ fits.
          Leads-bind _ _
            (save-Leads id wo _ row refl (λ p. posted_count_added column_2 p wo.cost_lines l))
            (λ u. Keeps-Leads _ (search keeps_rules)))))

    update-Leads :
        (now id : ℕ) (p : WorkOrderUpdate) → Leads Held Balanced (update column_2 now id p)
    unfolding update
    update-Leads now id p = Gives-Leads (Gives-raise_if _ _) (λ _ good.
        Gives-Leads (work_order-Held id _) (λ wo row. Gives-Leads (Gives-raise_if _ _) (λ _ early.
          Gives-Leads (Gives-raise_if _ _) (λ _ fits.
            Leads-bind _ _ (save-Leads id wo _ row refl (λ p. refl))
              (λ u. Keeps-Leads _ (search keeps_rules))))))

drawn-Balanced : (c : Counters) → Keeps Balanced (modify (λ db. record db { counters = c }))
drawn-Balanced c = Keeps-modify _ (λ s h. h)

insert-Balanced :
    (row : ℕ → MaintenanceWorkOrder)
    → ((id : ℕ) → (row id).id ≡ id)
    → ((id : ℕ) (p : Cost → Bool) → posted_count p (row id).cost_lines ≡ 0)
    → Keeps Balanced (insert_work_order row)
unfolding insert_work_order
insert-Balanced row same none_posted = record {
  at = λ s h. inserted-IsBalanced h (row s.next_id) (same s.next_id) (none_posted s.next_id);
}

-- A request that leads from any table of orders to balance keeps the balance.
kept :
    {A : Type 0} (m : Action Db A)
    → ((T : Table MaintenanceWorkOrder) → Leads (Held T) Balanced m)
    → Keeps Balanced m
kept m l = record { at = λ s h. (l s.orders).at s (refl, h) }

module _ (column_2 : Decimal → ℤ) (org : ℕ) where
  new-Balanced :
      (now : ℕ) (p : WorkOrderCreate) (number : Text)
      → Keeps Balanced (insert_work_order (new_order column_2 now p number))
  unfolding new_order
  new-Balanced now p number =
      insert-Balanced (new_order column_2 now p number) (λ id. refl)
        (λ id q. posted_count-new_lines column_2 q p.cost_lines)

  create-Balanced : (now : ℕ) (p : WorkOrderCreate) → Keeps Balanced (create column_2 org now p)
  unfolding create
  create-Balanced now p =
      search (keeps_rules, notify-Balanced, drawn-Balanced, new-Balanced) depth 12

  serve-Balanced : (r : Request) → Keeps Balanced (serve column_2 org r)
  unfolding serve
  serve-Balanced (Request.created now p) = search (keeps_rules, create-Balanced now p)
  serve-Balanced (Request.cost_added id l) =
      search (keeps_rules, kept _ (λ T. add_cost_line-Leads T column_2 id l))
  serve-Balanced (Request.updated now id p) =
      search (keeps_rules, kept _ (λ T. update-Leads T column_2 now id p))
  serve-Balanced (Request.completed user now id p) =
      search (keeps_rules, kept _ (λ T. complete-Leads T column_2 org user now id p))

  outcome_kept :
      (r : Result (Unit × Db)) (db : Db)
      → Balanced db
      → After Balanced r
      → Balanced (state_after r db)
  outcome_kept (ok r) db h k = k
  outcome_kept (err e) db h k = h

  -- After any requests on work orders (created, given further cost lines, updated, completed), some of
  -- which may fail, the entries of an order in the cost subledger and the posted lines of the order
  -- have the same quantities, unit costs, totals and currencies, each as often, where that was so
  -- before: no line is posted twice, and no entry is without its line.
  pub serve_all-Balanced :
      (rs : List Request) (db : Db) → Balanced db → Balanced (serve_all column_2 org rs db)
  unfolding serve_all
  serve_all-Balanced [] db h = h
  serve_all-Balanced (r ∷ rs) db h =
      serve_all-Balanced rs (state_after (serve column_2 org r db) db)
        (outcome_kept (serve column_2 org r db) db h ((serve-Balanced r).at db h))
