-- ===== src/Maintenance/Costs.antt =====
-- What the cost subledger holds of a work order (app/services/maintenance.py).
use cestos_oversight.Base.{
  ℕ, suc, ◌+◌, ◌≤◌, ◌≡◌, refl, ap, sym, ◌∙◌, Option, none, some, List, [], ◌∷◌, ◌++◌, Bool, false,
  ◌&&◌, ◌==◌, ==_refl, leb, keep, length, length-append, arith, inl, inr, Bool-cases,
}
use cestos_oversight.Base.Int.{ℤ}
use cestos_oversight.Base.Decimal.{Decimal}
use cestos_oversight.Base.Selections.{keep-append}
use cestos_oversight.Base.Table.{Table, put}
use cestos_oversight.Base.Text.{Text}
use cestos_oversight.Commercial.Model.{CostSubledgerEntry}
use cestos_oversight.Maintenance.Model.{WorkOrderCostLine, MaintenanceWorkOrder, Db, CostLineCreate}
use cestos_oversight.Maintenance.Orders.{cost_entry, cost_entries, posted_lines}
use cestos_oversight.Maintenance.Work.{new_line, new_lines}

-- What a line and its entry have in common.
pub record Cost : Type 0 where
  pub quantity : ℤ
  pub unit_cost : ℤ
  pub total_cost : ℤ
  pub currency : Text

abbrev pub line_cost : WorkOrderCostLine → Cost
line_cost l = record {
  quantity = l.quantity;
  unit_cost = l.unit_cost;
  total_cost = l.total_cost;
  currency = l.currency;
}

abbrev pub entry_cost : CostSubledgerEntry → Cost
entry_cost e = record {
  quantity = e.quantity;
  unit_cost = e.unit_cost;
  total_cost = e.total_cost;
  currency = e.currency;
}

abbrev pub names : ℕ → Option ℕ → Bool
names id none = false
names id (some i) = i == id

-- The entries of an order, and its posted lines, with a cost that passes a test.
abbrev pub entry_count : ℕ → (Cost → Bool) → List CostSubledgerEntry → ℕ
entry_count id p es = length (keep (λ e. names id e.source_entity_id && p (entry_cost e)) es)

abbrev pub posted_count : (Cost → Bool) → List WorkOrderCostLine → ℕ
posted_count p ls = length (keep (λ l. l.posted_to_subledger && p (line_cost l)) ls)

abbrev pub lines_at : Option MaintenanceWorkOrder → List WorkOrderCostLine
lines_at none = []
lines_at (some wo) = wo.cost_lines

-- Whatever the test, as many entries of an order pass it as posted lines of the order do: the
-- entries and the posted lines have the same costs, each as often.
pub record IsBalanced (orders : Table MaintenanceWorkOrder) (costs : List CostSubledgerEntry)
    (next_id : ℕ) : Type 0 where
  pub balanced :
      (id : ℕ) (p : Cost → Bool) → entry_count id p costs ≡ posted_count p (lines_at (orders id))
  pub keyed : (id : ℕ) (wo : MaintenanceWorkOrder) → orders id ≡ some wo → wo.id ≡ id
  pub fresh : (id : ℕ) → next_id ≤ id → orders id ≡ none

abbrev pub Balanced : Db → Type 0
Balanced db = IsBalanced db.orders db.costs db.next_id

entry_count-append :
    (id : ℕ) (p : Cost → Bool) (xs ys : List CostSubledgerEntry)
    → entry_count id p (xs ++ ys) ≡ entry_count id p xs + entry_count id p ys
entry_count-append id p xs ys =
    let q : CostSubledgerEntry → Bool = λ e. names id e.source_entity_id && p (entry_cost e) in
    ap length (keep-append q xs ys) ∙ length-append (keep q xs) (keep q ys)

posted_count-append :
    (p : Cost → Bool) (xs ys : List WorkOrderCostLine)
    → posted_count p (xs ++ ys) ≡ posted_count p xs + posted_count p ys
posted_count-append p xs ys =
    let q : WorkOrderCostLine → Bool = λ l. l.posted_to_subledger && p (line_cost l) in
    ap length (keep-append q xs ys) ∙ length-append (keep q xs) (keep q ys)

-- Posting the lines makes an entry for each line that was not posted.
posted_count-posted_lines :
    (wo : MaintenanceWorkOrder) (user now : ℕ) (p : Cost → Bool) (ls : List WorkOrderCostLine)
    → posted_count p (posted_lines ls)
      ≡ posted_count p ls + entry_count wo.id p (cost_entries wo user now ls)
unfolding posted_lines cost_entries cost_entry
posted_count-posted_lines wo user now p [] = refl
posted_count-posted_lines wo user now p (l ∷ ls) =
    let rest = posted_count-posted_lines wo user now p ls in
    elim (Bool-cases (p (line_cost l))) [
      | inl e ↦ elim (Bool-cases l.posted_to_subledger) [
        | inl f ↦ rw (e, f) (omega (arith, rest))
        | inr f ↦ rw (f, ==_refl wo.id, e) (omega (arith, rest))
      ]
      | inr e ↦ elim (Bool-cases l.posted_to_subledger) [
        | inl f ↦ rw (e, f) rest
        | inr f ↦ rw (f, ==_refl wo.id, e) rest
      ]
    ]

-- The entries of an order name no other one.
entry_count_other :
    (wo : MaintenanceWorkOrder) (user now id : ℕ) (p : Cost → Bool) (ls : List WorkOrderCostLine)
    → (wo.id == id) ≡ false
    → entry_count id p (cost_entries wo user now ls) ≡ 0
unfolding cost_entries cost_entry
entry_count_other wo user now id p [] h = refl
entry_count_other wo user now id p (l ∷ ls) h = elim (Bool-cases l.posted_to_subledger) [
  | inl e ↦ rw e (entry_count_other wo user now id p ls h)
  | inr e ↦ rw (e, h) (entry_count_other wo user now id p ls h)
]

pub posted_count-new_lines :
    (column_2 : Decimal → ℤ) (p : Cost → Bool) (ls : List CostLineCreate)
    → posted_count p (new_lines column_2 ls) ≡ 0
unfolding new_lines
posted_count-new_lines column_2 p [] = refl
posted_count-new_lines column_2 p (l ∷ ls) = posted_count-new_lines column_2 p ls

pub posted_count_added :
    (column_2 : Decimal → ℤ) (p : Cost → Bool) (ls : List WorkOrderCostLine) (l : CostLineCreate)
    → posted_count p (ls ++ new_line column_2 l ∷ []) ≡ posted_count p ls
posted_count_added column_2 p ls l =
    omega (arith, posted_count-append p ls (new_line column_2 l ∷ []))

module _ {orders : Table MaintenanceWorkOrder} {costs : List CostSubledgerEntry} {next_id : ℕ}
    (h : IsBalanced orders costs next_id) where
  -- A row is written, with the entries of its posted lines.
  put-IsBalanced :
      (k : ℕ) (after : MaintenanceWorkOrder) (costs' : List CostSubledgerEntry) (next_id' : ℕ)
      → after.id ≡ k
      → ((j : ℕ) → next_id' ≤ j → ((j == k) ≡ false) × (next_id ≤ j))
      → ((j : ℕ) (p : Cost → Bool)
          → (j == k) ≡ false
          → entry_count j p costs' ≡ entry_count j p costs)
      → ((p : Cost → Bool) → entry_count k p costs' ≡ posted_count p after.cost_lines)
      → IsBalanced (put k after orders) costs' next_id'
  put-IsBalanced k after costs' next_id' same later others own = record {
    balanced = λ j p. elim (Bool-cases (j == k)) [
      | inl e ↦ let at_k : j ≡ k = ground arith in rw (e, at_k) (own p)
      | inr e ↦ rw e (others j p e ∙ h.balanced j p)
    ];
    keyed = λ j wo row. elim (Bool-cases (j == k)) [
      | inl e ↦
          let at_k : j ≡ k = ground arith in
          let stored : some after ≡ some wo = sym (rw e refl) ∙ row in
          let eq : after ≡ wo = cc in
          sym (ap (λ (w : MaintenanceWorkOrder). w.id) eq) ∙ same ∙ sym at_k
      | inr e ↦ h.keyed j wo (sym (rw e refl) ∙ row)
    ];
    fresh = λ j le. let (other, late) = later j le in rw other (h.fresh j late);
  }

  row_before : (id : ℕ) (wo : MaintenanceWorkOrder) → orders id ≡ some wo → suc id ≤ next_id
  row_before id wo row = elim (Bool-cases (leb next_id id)) [
    | inl e ↦
        let none_there : orders id ≡ none = h.fresh id (ground arith) in
        let absurd : some wo ≡ none = sym row ∙ none_there in cc
    | inr e ↦ ground arith
  ]

  -- A row is written again with the same lines posted.
  pub written-IsBalanced :
      (id : ℕ) (wo after : MaintenanceWorkOrder)
      → orders id ≡ some wo
      → after.id ≡ wo.id
      → ((p : Cost → Bool) → posted_count p after.cost_lines ≡ posted_count p wo.cost_lines)
      → IsBalanced (put after.id after orders) costs next_id
  written-IsBalanced id wo after row same lines =
      let at_id : after.id ≡ id = same ∙ h.keyed id wo row in
      let early = row_before id wo row in
      put-IsBalanced after.id after costs next_id refl (λ j le. (ground (arith, early, at_id), le))
        (λ j p e. refl)
        (λ p.
          h.balanced after.id p
          ∙ ap (λ o. posted_count p (lines_at o)) (ap orders at_id ∙ row)
          ∙ sym (lines p))

  pub completed-IsBalanced :
      (id user now : ℕ) (wo after : MaintenanceWorkOrder)
      → orders id ≡ some wo
      → after.id ≡ wo.id
      → after.cost_lines ≡ posted_lines wo.cost_lines
      → IsBalanced
          (put wo.id after orders)
          (costs ++ cost_entries wo user now wo.cost_lines)
          next_id
  completed-IsBalanced id user now wo after row same lines =
      let extra = cost_entries wo user now wo.cost_lines in
      let at_id : wo.id ≡ id = h.keyed id wo row in
      let early = row_before id wo row in
      put-IsBalanced wo.id after (costs ++ extra) next_id same
        (λ j le. (ground (arith, early, at_id), le))
        (λ j p e.
          entry_count-append j p costs extra
          ∙ omega (arith, entry_count_other wo user now j p wo.cost_lines (ground arith)))
        (λ p.
          entry_count-append wo.id p costs extra
          ∙ ap (λ n. n + entry_count wo.id p extra)
              (h.balanced wo.id p ∙ ap (λ o. posted_count p (lines_at o)) (ap orders at_id ∙ row))
          ∙ sym (posted_count-posted_lines wo user now p wo.cost_lines)
          ∙ ap (posted_count p) (sym lines))

  pub inserted-IsBalanced :
      (wo : MaintenanceWorkOrder)
      → wo.id ≡ next_id
      → ((p : Cost → Bool) → posted_count p wo.cost_lines ≡ 0)
      → IsBalanced (put next_id wo orders) costs (suc next_id)
  inserted-IsBalanced wo same none_posted =
      put-IsBalanced next_id wo costs (suc next_id) same (λ j le. (ground arith, omega (arith, le)))
        (λ j p e. refl)
        (λ p.
          h.balanced next_id p
          ∙ ap (λ o. posted_count p (lines_at o)) (h.fresh next_id (omega arith))
          ∙ sym (none_posted p))
