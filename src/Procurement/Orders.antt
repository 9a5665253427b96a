-- ===== src/Procurement/Orders.antt =====
-- Every operation on purchase orders keeps the orders orderly (app/services/procurement.py and
-- app/api/v1/endpoints/procurement.py).
use cestos_oversight.Base.{
  ℕ, ◌≡◌, some, true, false, any, All, arith, inl, inr, Bool-cases, Option-cases, is_set, ◌==◌,
}
use cestos_oversight.Base.Int.{ℤ, ◌≤ℤ◌, neg_part}
use cestos_oversight.Base.Decimal.{Decimal, scaled, ◌≤ᵈ◌}
use cestos_oversight.Base.Decimal.Signs.{IsNonneg}
use cestos_oversight.Base.Action.{Action, Error, Result, ok, err}
use cestos_oversight.Base.Keeps.{Keeps, After, Keeps-modify}
use cestos_oversight.Base.Gives.{Gives, Gives-bind, Gives-gets, Gives-or_raise}
use cestos_oversight.Vendors.{VendorDb}
use cestos_oversight.Procurement.Model.{PurchaseOrderItem, PurchaseOrder, Event, Db}
use cestos_oversight.Procurement.Goods.{is_unapproved}
use cestos_oversight.Procurement.Lookup.{on_vendors, live_order, order, save, emit}
use cestos_oversight.Procurement.Drafts.{has_received}

-- What a column of two places stores of a number: nothing negative for one that is not, and no more
-- than a bound of two places that is neither negative nor below it.
pub record IsRounding (column_2 : Decimal → ℤ) : Type 0 where
  pub nonneg : (d : Decimal) → IsNonneg d → neg_part (column_2 d) ≡ 0
  pub below : (d : Decimal) (n : ℤ) → neg_part n ≡ 0 → (d ≤ᵈ scaled 2 n) ≡ true → column_2 d ≤ℤ n

-- No more is received than was ordered.
pub record IsBounded (i : PurchaseOrderItem) : Type 0 where
  pub nonneg : neg_part i.quantity_received ≡ 0
  pub within : i.quantity_received ≤ℤ i.quantity_ordered

pub record IsOrderly (po : PurchaseOrder) : Type 0 where
  pub bounded : All IsBounded po.items
  -- Before the approval nothing is received.
  pub before : is_unapproved po.status ≡ true → any has_received po.items ≡ false
  -- After it the order names the approver.
  pub approver : is_unapproved po.status ≡ false → is_set po.approved_by_id ≡ true

-- Each row stands under its id, and is orderly.
abbrev pub AreOrderly : Db → Type 0
AreOrderly db = (id : ℕ) (po : PurchaseOrder) → db.orders id ≡ some po → (po.id ≡ id) × IsOrderly po

carried :
    {A : Type 0} (r : Result (A × VendorDb)) (s : Db)
    → AreOrderly s
    → After AreOrderly (elim r [ ok r ↦ ok (r.0, record s { vendors = r.1 }) | err e ↦ err e ])
carried (ok r) s h = h
carried (err e) s h = tt

pub on_vendors-AreOrderly : {A : Type 0} (m : Action VendorDb A) → Keeps AreOrderly (on_vendors m)
unfolding on_vendors
on_vendors-AreOrderly m = record { at = λ s h. carried (m s.vendors) s h }

pub emit-AreOrderly : (e : Event) → Keeps AreOrderly (emit e)
unfolding emit
emit-AreOrderly e = Keeps-modify _ (λ s h. h)

pub save-AreOrderly : (po : PurchaseOrder) → IsOrderly po → Keeps AreOrderly (save po)
unfolding save
save-AreOrderly po o = Keeps-modify _ (λ s h id row e. elim (Bool-cases (id == po.id)) [
  | inl same ↦
      let eq : some row ≡ some po = ground arith in
      let eq' : row ≡ po = cc in rw eq' (ground arith, o)
  | inr other ↦ h id row (ground arith)
])

pub live_order_row :
    (id : ℕ) (db : Db) (po : PurchaseOrder) → live_order id db ≡ some po → db.orders id ≡ some po
live_order_row id db po e = elim (Option-cases (db.orders id)) [
  | inl missing ↦ ground arith
  | inr (row, found) ↦ ground arith
]

pub order-Gives : (id : ℕ) (e : Error) → Gives AreOrderly IsOrderly (order id e)
unfolding order
order-Gives id e =
    Gives-bind {R = λ o. (po : PurchaseOrder) → o ≡ some po → IsOrderly po}
      (Gives-gets (live_order id) (λ s h po row. (h id po (live_order_row id s po row)).1))
      (λ found row. Gives-or_raise found e row)
