-- ===== src/Procurement/Kept.antt =====
-- No operation on purchase orders receives more than was ordered, or before an approval
-- (app/services/procurement.py and app/api/v1/endpoints/procurement.py).
use cestos_oversight.Base.{
  ℕ, ◌≡◌, refl, Option, none, some, List, [], ◌∷◌, Bool, true, false, any, All, arith, inl, inr,
  Option-cases, if◌then◌else◌,
}
use cestos_oversight.Base.Int.{ℤ, zero_ℤ, neg_part}
use cestos_oversight.Base.Decimal.{Decimal, scaled, ◌+ᵈ◌, ◌*ᵈ◌, ◌≤ᵈ◌}
use cestos_oversight.Base.Decimal.Signs.{IsNonneg, +ᵈ-IsNonneg, IsNonneg-of_test, scaled_le}
use cestos_oversight.Base.Table.{Table}
use cestos_oversight.Base.Action.{Action, Result, ok, err, state_after, pure, ◌>>◌}
use cestos_oversight.Base.Keeps.{Keeps, keeps_rules}
use cestos_oversight.Base.Gives.{Given, Gives, Gives-bind, Gives-then, Gives-pure, Gives-raise_if}
use cestos_oversight.Base.Text.{Text, strip}
use cestos_oversight.Vendors.{FuelSupplier, vendor_id}
use cestos_oversight.Procurement.Model.{
  PoStatus, PurchaseOrderItem, PurchaseOrder, Db, ItemCreate, PurchaseOrderCreate,
  PurchaseOrderUpdate, Actor,
}
use cestos_oversight.Procurement.Lookup.{not_there, save, known_or_new, named_supplier, register}
use cestos_oversight.Procurement.Drafts.{
  is_negative, has_received, chosen_supplier, purchase_number, add_items, create, update,
}
use cestos_oversight.Procurement.Goods.{
  is_unapproved, Receiving, receive_item, receive_items, received_status, receive_goods,
}
use cestos_oversight.Procurement.Approval.{is_draft, submit, approve_order, approve}
use cestos_oversight.Procurement.Service.{Change, Request, change, serve, serve_all}
use cestos_oversight.Procurement.Orders.{
  IsRounding, IsBounded, IsOrderly, AreOrderly, on_vendors-AreOrderly, emit-AreOrderly,
  save-AreOrderly, order-Gives,
}

ruleset order_rules = (keeps_rules, on_vendors-AreOrderly, emit-AreOrderly)

-- An order that is written and returned, and one with a call between.
saved : (po : PurchaseOrder) → IsOrderly po → Gives AreOrderly IsOrderly (save po >> pure po)
saved po o = Gives-then (save-AreOrderly po o) (λ _. Gives-pure po o)

written :
    (po : PurchaseOrder) (m : Action Db (Unit {0}))
    → IsOrderly po
    → Keeps AreOrderly m
    → Gives AreOrderly IsOrderly (save po >> (m >> pure po))
written po m o k = Gives-then (save-AreOrderly po o) (λ _. Gives-then k (λ _. Gives-pure po o))

ordered_nonneg : (i : PurchaseOrderItem) → IsBounded i → neg_part i.quantity_ordered ≡ 0
ordered_nonneg i b = let received = b.nonneg in let most = b.within in ground arith

new_status :
    (b : Bool) → is_unapproved (if b then PoStatus.draft else PoStatus.waiting_approval) ≡ true
unfolding is_unapproved
new_status true = refl
new_status false = refl

is_draft_unapproved : (s : PoStatus) → is_draft s ≡ true → is_unapproved s ≡ true
unfolding is_draft is_unapproved
is_draft_unapproved s h = ground arith

received_status_over :
    (r : Receiving) (s : PoStatus)
    → is_unapproved s ≡ false
    → is_unapproved (received_status r s) ≡ false
unfolding received_status is_unapproved
received_status_over r s h = ground arith

known_or_new-AreOrderly :
    (name : Text) (o : Option FuelSupplier) → Keeps AreOrderly (known_or_new name o)
unfolding known_or_new
known_or_new-AreOrderly name none = search order_rules
known_or_new-AreOrderly name (some s) = search order_rules

named_supplier-AreOrderly : (name : Text) → Keeps AreOrderly (named_supplier name)
unfolding named_supplier
named_supplier-AreOrderly name = search (order_rules, known_or_new-AreOrderly)

chosen_supplier-AreOrderly :
    (id : Option ℕ) (name : Option Text) → Keeps AreOrderly (chosen_supplier id name)
unfolding chosen_supplier
chosen_supplier-AreOrderly none name = search (order_rules, named_supplier-AreOrderly)
chosen_supplier-AreOrderly (some id) name = search order_rules

register-AreOrderly : (org : ℕ) (s : FuelSupplier) → Keeps AreOrderly (register org s)
unfolding register
register-AreOrderly org s = search order_rules

abbrev AreNew : List PurchaseOrderItem → Type 0
AreNew is = All IsBounded is × (any has_received is ≡ false)

module _ (column_2 : Decimal → ℤ) (rounds : IsRounding column_2) where
  add_items-Gives :
      (is : List ItemCreate) (total : Decimal)
      → any is_negative is ≡ false
      → Gives AreOrderly (λ r. AreNew r.0) (add_items column_2 is total)
  unfolding add_items
  add_items-Gives [] total h = Gives-pure _ (tt, refl)
  add_items-Gives (i ∷ is) total h = Gives-then (on_vendors-AreOrderly vendor_id) (λ id.
      Gives-bind (add_items-Gives is (total +ᵈ i.quantity_ordered *ᵈ i.unit_price) (ground arith))
        (λ rest new. Gives-pure _ (
          (
            record {
              nonneg = refl;
              within =
                  let n =
                    rounds.nonneg i.quantity_ordered
                      (IsNonneg-of_test i.quantity_ordered (ground arith)) in
                  omega (arith, n);
            },
            new.0,
          ),
          new.1,
        )))

  create-Gives :
      (org : ℕ) (actor_id : Option ℕ) (p : PurchaseOrderCreate)
      → Gives AreOrderly IsOrderly (create column_2 org actor_id p)
  unfolding create
  create-Gives org actor_id p = Gives-bind (Gives-raise_if _ _) (λ _ valid.
      let good : any is_negative p.items ≡ false = ground arith in
      Gives-then (search order_rules) (λ _.
        Gives-then (chosen_supplier-AreOrderly p.supplier_id p.supplier_name) (λ supplier.
          Gives-then (register-AreOrderly org supplier) (λ _.
            Gives-then (on_vendors-AreOrderly (purchase_number org)) (λ number.
              Gives-then (on_vendors-AreOrderly vendor_id) (λ id.
                Gives-bind (add_items-Gives p.items (scaled 1 zero_ℤ) good) (λ added new.
                  written _ _
                    (record {
                      bounded = new.0;
                      before = λ _. new.1;
                      approver = λ h. ground (arith, new_status p.save_as_draft);
                    })
                    (search order_rules))))))))

  update-Gives :
      (org id : ℕ) (p : PurchaseOrderUpdate) → Gives AreOrderly IsOrderly (update column_2 org id p)
  unfolding update
  update-Gives org id p = Gives-bind (Gives-raise_if _ _) (λ _ valid.
      let good : any is_negative p.items ≡ false = ground arith in
      Gives-bind (order-Gives id not_there) (λ po o. Gives-then (search order_rules) (λ _.
        Gives-then (search order_rules) (λ _.
          Gives-then (named_supplier-AreOrderly (strip p.supplier_name)) (λ supplier.
            Gives-then (register-AreOrderly org supplier) (λ _.
              Gives-bind (add_items-Gives p.items (scaled 0 zero_ℤ) good) (λ added new.
                saved _
                  (record { bounded = new.0; before = λ _. new.1; approver = o.approver }))))))))

  receive_item-Gives :
      (receipts : Table Decimal) (i : PurchaseOrderItem)
      → IsBounded i
      → Gives AreOrderly
          (λ now. IsNonneg now × ((now ≤ᵈ scaled 2 i.quantity_ordered) ≡ true))
          (receive_item receipts i)
  unfolding receive_item
  receive_item-Gives receipts i b = elim (Option-cases (receipts i.id)) [
    | inl e ↦
        rw (receive_item, e)
          (Gives-pure _ (b.nonneg, scaled_le 2 i.quantity_received i.quantity_ordered b.within))
    | inr (q, e) ↦
        rw (receive_item, e)
          (Gives-bind (Gives-raise_if _ _) (λ _ good. Gives-pure _ (
            +ᵈ-IsNonneg (scaled 2 i.quantity_received) q b.nonneg
                (IsNonneg-of_test q (ground arith)),
            ground arith,
          )))
  ]

  receive_items-Gives :
      (receipts : Table Decimal) (is : List PurchaseOrderItem) (r : Receiving)
      → All IsBounded is
      → Gives AreOrderly (λ done. All IsBounded done.0) (receive_items column_2 receipts is r)
  unfolding receive_items
  receive_items-Gives receipts [] r b = Gives-pure _ tt
  receive_items-Gives receipts (i ∷ is) r b =
      Gives-bind (receive_item-Gives receipts i b.0) (λ now fits.
        Gives-bind (receive_items-Gives receipts is _ b.1) (λ rest bs. Gives-pure _ (
          (
            record {
              nonneg = rounds.nonneg now fits.0;
              within = rounds.below now i.quantity_ordered (ordered_nonneg i b.0) fits.1;
            },
            bs,
          ))))

  receive_goods-Gives :
      (id : ℕ) (receipts : Table Decimal)
      → Gives AreOrderly IsOrderly (receive_goods column_2 id receipts)
  unfolding receive_goods
  receive_goods-Gives id receipts = Gives-bind (order-Gives id not_there) (λ po o.
      Gives-bind (Gives-raise_if _ _) (λ _ approved. Gives-then (search order_rules) (λ _.
        Gives-bind (receive_items-Gives receipts po.items _ o.bounded) (λ done b.
          written _ _
            (record {
              bounded = b;
              before = λ h. ground (arith, received_status_over done.1 po.status approved);
              approver = λ h. o.approver approved;
            })
            (search order_rules)))))

submit-Gives : (actor : Actor) (id : ℕ) → Gives AreOrderly IsOrderly (submit actor id)
unfolding submit is_unapproved
submit-Gives actor id = Gives-bind (order-Gives id _) (λ po o. Gives-then (search order_rules) (λ _.
    Gives-bind (Gives-raise_if _ _) (λ _ draft.
      let o' : IsOrderly (record po { status = PoStatus.waiting_approval }) = record {
        bounded = o.bounded;
        before = λ h. o.before (is_draft_unapproved po.status (ground arith));
        approver = λ h. ground arith;
      } in
      Gives-then (save-AreOrderly _ o') (λ _.
        Gives-then (emit-AreOrderly _)
          (λ _. Gives-then (emit-AreOrderly _) (λ _. Gives-pure _ o'))))))

approve_order-Gives :
    (approver_id now id : ℕ) → Gives AreOrderly IsOrderly (approve_order approver_id now id)
unfolding approve_order is_unapproved
approve_order-Gives approver_id now id = Gives-bind (order-Gives id not_there) (λ po o.
    Gives-then (search order_rules) (λ _.
      saved _ (record { bounded = o.bounded; before = λ h. ground arith; approver = λ h. refl })))

approve-Gives : (actor : Actor) (now id : ℕ) → Gives AreOrderly IsOrderly (approve actor now id)
unfolding approve
approve-Gives actor now id = Gives-then (search order_rules) (λ _.
    Gives-bind (approve_order-Gives actor.id now id)
      (λ po o. Gives-then (emit-AreOrderly _) (λ _. Gives-pure po o)))

module _ (column_2 : Decimal → ℤ) (rounds : IsRounding column_2) (org : ℕ) where
  serve-Gives : (r : Request) → Gives AreOrderly IsOrderly (serve column_2 org r)
  unfolding serve change
  serve-Gives (Request.ordered actor_id p) = create-Gives column_2 rounds org actor_id p
  serve-Gives (Request.changed id (Change.edited p)) = update-Gives column_2 rounds org id p
  serve-Gives (Request.changed id (Change.submitted actor)) = submit-Gives actor id
  serve-Gives (Request.changed id (Change.approved actor now)) = approve-Gives actor now id
  serve-Gives (Request.changed id (Change.goods receipts)) =
      receive_goods-Gives column_2 rounds id receipts

  settled :
      (r : Result (PurchaseOrder × Db)) (s : Db)
      → Given AreOrderly IsOrderly r
      → AreOrderly s
      → AreOrderly (state_after r s)
  settled (ok r) s g h = g.1
  settled (err e) s g h = h

  -- Where a column of two places rounds to what is not negative, and to no more than a bound of two
  -- places, any requests on orders leave each order under its id, with nothing received before an
  -- approval, an approver named from the approval on, and of each item no more received than was
  -- ordered.
  pub serve_all-AreOrderly :
      (rs : List Request) (s : Db) → AreOrderly s → AreOrderly (serve_all column_2 org rs s)
  unfolding serve_all
  serve_all-AreOrderly [] s h = h
  serve_all-AreOrderly (r ∷ rs) s h =
      let before = serve_all column_2 org rs s in
      let kept : AreOrderly before = serve_all-AreOrderly rs s h in
      settled (serve column_2 org r before) before ((serve-Gives r).at before kept) kept
