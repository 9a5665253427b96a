-- ===== src/Procurement/Statuses.antt =====
-- The status of a purchase order moves along one graph (app/services/procurement.py).
use cestos_oversight.Base.{
  ℕ, ◌≡◌, refl, ap, sym, ◌∙◌, Option, none, some, List, [], ◌∷◌, Bool, true, false, arith, inl, inr,
  Bool-cases, ◌==◌, if◌then◌else◌, Option-cases,
}
use cestos_oversight.Base.Int.{ℤ, zero_ℤ}
use cestos_oversight.Base.Decimal.{Decimal, scaled}
use cestos_oversight.Base.Text.{Text, strip}
use cestos_oversight.Base.Table.{Table, put}
use cestos_oversight.Base.Action.{Action, Error, Result, ok, err, state_after, modify, ◌>>=◌}
use cestos_oversight.Base.Keeps.{Keeps, After, Keeps-modify, keeps_rules}
use cestos_oversight.Base.Leads.{Leads, Leads-bind, Keeps-Leads}
use cestos_oversight.Base.Gives.{
  Gives, Gives-bind, Gives-gets, Gives-or_raise, Gives-raise_if, Gives-Leads, Keeps-Gives,
}
use cestos_oversight.Vendors.{VendorDb, FuelSupplier}
use cestos_oversight.Procurement.Model.{
  PoStatus, PurchaseOrderItem, PurchaseOrder, Event, Db, ItemCreate, PurchaseOrderUpdate, Actor,
}
use cestos_oversight.Procurement.Lookup.{
  on_vendors, live_order, order, save, emit, known_or_new, named_supplier, register,
}
use cestos_oversight.Procurement.Drafts.{add_items, update}
use cestos_oversight.Procurement.Goods.{
  is_unapproved, is_over, Receiving, receive_item, receive_items, received_status, receive_goods,
}
use cestos_oversight.Procurement.Approval.{is_draft, is_waiting, submit, approve_order, approve}
use cestos_oversight.Procurement.Orders.{AreOrderly, live_order_row}
use cestos_oversight.Procurement.Service.{Change, change}

-- The statuses in which an order takes goods.
pub data IsOpen : PoStatus → Type 0 where
  approved : IsOpen PoStatus.approved
  sent : IsOpen PoStatus.sent_to_supplier
  partly : IsOpen PoStatus.partially_received

-- What one request may do to the status of an order.
pub data Moves : PoStatus → PoStatus → Type 0 where
  stays : {s : PoStatus} → Moves s s
  is_submitted : Moves PoStatus.draft PoStatus.waiting_approval
  is_approved : Moves PoStatus.waiting_approval PoStatus.approved
  takes_some : {s : PoStatus} → IsOpen s → Moves s PoStatus.partially_received
  takes_all : {s : PoStatus} → IsOpen s → Moves s PoStatus.received

draft_moves : (s : PoStatus) → is_draft s ≡ true → Moves s PoStatus.waiting_approval
unfolding is_draft
draft_moves PoStatus.draft h = Moves.is_submitted
draft_moves _ h = cc

waiting_moves : (s : PoStatus) → is_waiting s ≡ true → Moves s PoStatus.approved
unfolding is_waiting
waiting_moves PoStatus.waiting_approval h = Moves.is_approved
waiting_moves _ h = cc

opened : (s : PoStatus) → is_unapproved s ≡ false → is_over s ≡ false → IsOpen s
unfolding is_unapproved is_over
opened PoStatus.approved u o = IsOpen.approved
opened PoStatus.sent_to_supplier u o = IsOpen.sent
opened PoStatus.partially_received u o = IsOpen.partly
opened PoStatus.draft u o = cc
opened PoStatus.waiting_approval u o = cc
opened _ u o = cc

taken :
    (all some_now : Bool) (s : PoStatus)
    → IsOpen s
    → Moves s
        (if all then PoStatus.received else if some_now then PoStatus.partially_received else s)
taken true some_now s o = Moves.takes_all o
taken false true s o = Moves.takes_some o
taken false false s o = Moves.stays

received_moves : (r : Receiving) (s : PoStatus) → IsOpen s → Moves s (received_status r s)
unfolding received_status
received_moves r s o = taken r.all_fully_received r.any_received s o

module _ (T : Table PurchaseOrder) where
  abbrev Same : Db → Type 0
  Same db = db.orders ≡ T

  -- One row of the table is written, by a row whose status has moved.
  pub record IsMoved (id : ℕ) (db : Db) : Type 0 where
    pub before : PurchaseOrder
    pub after : PurchaseOrder
    pub row : T id ≡ some before
    pub written : db.orders ≡ put after.id after T
    pub same_id : after.id ≡ before.id
    pub moved : Moves before.status after.status

  order-Same : (id : ℕ) (e : Error) → Gives Same (λ po. T id ≡ some po) (order id e)
  unfolding order
  order-Same id e =
      Gives-bind {R = λ o. (po : PurchaseOrder) → o ≡ some po → T id ≡ some po}
        (Gives-gets (live_order id) (λ s h po row. let stored = live_order_row id s po row in cc))
        (λ found row. Gives-or_raise found e row)

  carried :
      {A : Type 0} (r : Result (A × VendorDb)) (s : Db)
      → Same s
      → After Same (elim r [ ok r ↦ ok (r.0, record s { vendors = r.1 }) | err e ↦ err e ])
  carried (ok r) s h = h
  carried (err e) s h = tt

  on_vendors-Same : {A : Type 0} (m : Action VendorDb A) → Keeps Same (on_vendors m)
  unfolding on_vendors
  on_vendors-Same m = record { at = λ s h. carried (m s.vendors) s h }

  emit-IsMoved : (id : ℕ) (e : Event) → Keeps (IsMoved id) (emit e)
  unfolding emit
  emit-IsMoved id e = Keeps-modify _ (λ s m. record {
    before = m.before;
    after = m.after;
    row = m.row;
    written = m.written;
    same_id = m.same_id;
    moved = m.moved;
  })

  save-Leads :
      (id : ℕ) (po after : PurchaseOrder)
      → T id ≡ some po
      → after.id ≡ po.id
      → Moves po.status after.status
      → Leads Same (IsMoved id) (save after)
  unfolding save modify
  save-Leads id po after row same m = record {
    at = λ s h. record {
      before = po;
      after = after;
      row = row;
      written = ap (put after.id after) h;
      same_id = same;
      moved = m;
    };
  }

  ruleset same_rules = (keeps_rules, on_vendors-Same)

  known_or_new-Same : (name : Text) (o : Option FuelSupplier) → Keeps Same (known_or_new name o)
  unfolding known_or_new
  known_or_new-Same name none = search same_rules
  known_or_new-Same name (some s) = search same_rules

  named_supplier-Same : (name : Text) → Keeps Same (named_supplier name)
  unfolding named_supplier
  named_supplier-Same name = search (same_rules, known_or_new-Same)

  register-Same : (org : ℕ) (s : FuelSupplier) → Keeps Same (register org s)
  unfolding register
  register-Same org s = search same_rules

  receive_item-Same :
      (receipts : Table Decimal) (i : PurchaseOrderItem) → Keeps Same (receive_item receipts i)
  unfolding receive_item
  receive_item-Same receipts i = elim (Option-cases (receipts i.id)) [
    | inl e ↦ rw (receive_item, e) (search same_rules)
    | inr (q, e) ↦ rw (receive_item, e) (search same_rules)
  ]

  -- The end of a request: the row is written, and calls that leave the tables alone follow.
  ends :
      {A : Type 0} {m : Unit → Action Db A} (id : ℕ) (po after : PurchaseOrder)
      → T id ≡ some po
      → after.id ≡ po.id
      → Moves po.status after.status
      → ((u : Unit) → Keeps (IsMoved id) (m u))
      → Leads Same (IsMoved id) (save after >>= m)
  ends id po after row same moved k =
      Leads-bind _ _ (save-Leads id po after row same moved) (λ u. Keeps-Leads _ (k u))

  submit-Leads : (actor : Actor) (id : ℕ) → Leads Same (IsMoved id) (submit actor id)
  unfolding submit
  submit-Leads actor id = Gives-Leads (order-Same id _) (λ po row.
      Gives-Leads (Gives-raise_if _ _) (λ _ allowed. Gives-Leads (Gives-raise_if _ _) (λ _ draft.
        ends id po _ row refl (draft_moves po.status (ground arith))
          (λ u. search (keeps_rules, emit-IsMoved)))))

  approve_order-Leads :
      (approver_id now id : ℕ) → Leads Same (IsMoved id) (approve_order approver_id now id)
  unfolding approve_order
  approve_order-Leads approver_id now id = Gives-Leads (order-Same id _) (λ po row.
      Gives-Leads (Gives-raise_if _ _) (λ _ waiting.
        ends id po _ row refl (waiting_moves po.status (ground arith)) (λ u. search keeps_rules)))

  approve-Leads : (actor : Actor) (now id : ℕ) → Leads Same (IsMoved id) (approve actor now id)
  unfolding approve
  approve-Leads actor now id = Gives-Leads (Gives-raise_if _ _) (λ _ allowed.
      Leads-bind _ _ (approve_order-Leads actor.id now id)
        (λ after. Keeps-Leads _ (search (keeps_rules, emit-IsMoved))))

  module _ (column_2 : Decimal → ℤ) where
    add_items-Same :
        (is : List ItemCreate) (total : Decimal) → Keeps Same (add_items column_2 is total)
    unfolding add_items
    add_items-Same [] total = search same_rules
    add_items-Same (i ∷ is) total = search (same_rules, λ (t : Decimal). add_items-Same is t)

    receive_items-Same :
        (receipts : Table Decimal) (is : List PurchaseOrderItem) (r : Receiving)
        → Keeps Same (receive_items column_2 receipts is r)
    unfolding receive_items
    receive_items-Same receipts [] r = search same_rules
    receive_items-Same receipts (i ∷ is) r =
        search (same_rules, receive_item-Same, λ (t : Receiving). receive_items-Same receipts is t)

    update-Leads :
        (org id : ℕ) (p : PurchaseOrderUpdate) → Leads Same (IsMoved id) (update column_2 org id p)
    unfolding update
    update-Leads org id p = Gives-Leads (Gives-raise_if _ _) (λ _ good.
        Gives-Leads (order-Same id _) (λ po row. Gives-Leads (Gives-raise_if _ _) (λ _ empty.
          Gives-Leads (Gives-raise_if _ _) (λ _ named.
            Gives-Leads (Keeps-Gives _ (named_supplier-Same (strip p.supplier_name))) (λ supplier _.
              Gives-Leads (Keeps-Gives _ (register-Same org supplier)) (λ _ _.
                Gives-Leads (Keeps-Gives _ (add_items-Same p.items (scaled 0 zero_ℤ)))
                  (λ added _. ends id po _ row refl Moves.stays (λ u. search keeps_rules))))))))

    receive_goods-Leads :
        (id : ℕ) (receipts : Table Decimal)
        → Leads Same (IsMoved id) (receive_goods column_2 id receipts)
    unfolding receive_goods
    receive_goods-Leads id receipts = Gives-Leads (order-Same id _) (λ po row.
        Gives-Leads (Gives-raise_if _ _) (λ _ unapproved.
          Gives-Leads (Gives-raise_if _ _) (λ _ over.
            Gives-Leads (Keeps-Gives _ (receive_items-Same receipts po.items _)) (λ done _.
              ends id po _ row refl
                (received_moves done.1 po.status (opened po.status unapproved over))
                (λ u. search (keeps_rules, emit-IsMoved))))))

    change-Leads : (org id : ℕ) (c : Change) → Leads Same (IsMoved id) (change column_2 org id c)
    unfolding change
    change-Leads org id (Change.edited p) = update-Leads org id p
    change-Leads org id (Change.submitted actor) = submit-Leads actor id
    change-Leads org id (Change.approved actor now) = approve-Leads actor now id
    change-Leads org id (Change.goods receipts) = receive_goods-Leads id receipts

-- A request on an order, whoever makes it and whether it succeeds or fails, leaves every order in
-- its place, with a status that stays or makes one step: a draft is submitted, an order that waits
-- is approved, and an order that takes goods becomes partially or fully received.
pub change_moves :
    (column_2 : Decimal → ℤ) (org id : ℕ) (c : Change) (s : Db)
    → AreOrderly s
    → (j : ℕ) (po : PurchaseOrder) → s.orders j ≡ some po
    → (po' : PurchaseOrder) × ((state_after (change column_2 org id c s) s).orders j ≡ some po')
      × Moves po.status po'.status
change_moves column_2 org id c s orderly j po row =
    outcome (change column_2 org id c s) ((change-Leads s.orders column_2 org id c).at s refl)
  where
    outcome :
        (r : Result (PurchaseOrder × Db))
        → After (IsMoved s.orders id) r
        → (po' : PurchaseOrder) × ((state_after r s).orders j ≡ some po')
          × Moves po.status po'.status
    outcome (err e) m = (po, row, Moves.stays)
    outcome (ok (a, t)) m = elim (Bool-cases (j == m.after.id)) [
      | inl same ↦
          let place : m.before.id ≡ id = (orderly id m.before m.row).0 in
          let at_id : j ≡ id = ground (arith, place, m.same_id) in
          let old : some po ≡ some m.before = sym row ∙ ap s.orders at_id ∙ m.row in
          let eq : po ≡ m.before = cc in
          (m.after, ap (λ f. f j) m.written ∙ ground arith, rw eq m.moved)
      | inr other ↦ (po, ap (λ f. f j) m.written ∙ ground arith, Moves.stays)
    ]
