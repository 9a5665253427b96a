-- ===== src/Procurement/Drafts.antt =====
-- `create_purchase_order` and `update_purchase_order` (app/services/procurement.py).
use cestos_oversight.Base.{
  ℕ, Option, none, some, List, [], ◌∷◌, Bool, false, not, ◌||◌, any, get_or, if◌then◌else◌,
}
use cestos_oversight.Base.Int.{ℤ, ltb_ℤ, leb_ℤ, zero_ℤ}
use cestos_oversight.Base.Decimal.{Decimal, scaled, ◌+ᵈ◌, ◌*ᵈ◌}
use cestos_oversight.Base.Text.{Text, strip}
use cestos_oversight.Base.Action.{
  Action, value_error, validation, pure, gets, or_raise, modify, raise_if, ◌>>=◌, ◌>>◌,
}
use cestos_oversight.Counters.{EntityType, next_business_number}
use cestos_oversight.Vendors.{VendorDb, FuelSupplier, vendor_id, is_blank}
use cestos_oversight.Procurement.Model.{
  PoStatus, PurchaseOrderItem, PurchaseOrder, Event, Db, ItemCreate, PurchaseOrderCreate,
  PurchaseOrderUpdate,
}
use cestos_oversight.Procurement.Lookup.{
  on_vendors, order, not_there, save, emit, supplier_by_id, named_supplier, register,
}

-- `Field(ge=0)` on the quantities and prices of a request.
abbrev pub is_negative : ItemCreate → Bool
is_negative i = ltb_ℤ i.quantity_ordered.coefficient zero_ℤ || ltb_ℤ i.unit_price.coefficient zero_ℤ

-- `Field(ge=0)` on the total of a request.
abbrev pub is_negative_total : Option Decimal → Bool
is_negative_total none = false
is_negative_total (some d) = ltb_ℤ d.coefficient zero_ℤ

-- `require_supplier`
abbrev pub names_no_supplier : Option ℕ → Option Text → Bool
names_no_supplier (some _) name = false
names_no_supplier none name = is_blank (strip (get_or name []))

-- `(category or "").strip() or None`
abbrev pub clean_category : Option Text → Option Text
clean_category c = let s = strip (get_or c []) in if is_blank s then none else some s

unfoldable pub purchase_number : ℕ → Action VendorDb Text
purchase_number org = do
  drawn ← gets (λ db. next_business_number org EntityType.purchase_order db.counters)
  modify (λ db. record db { counters = drawn.1 })
  pure drawn.0

-- The supplier of a new order: the one that is chosen, or the one of the name.
unfoldable pub chosen_supplier : Option ℕ → Option Text → Action Db FuelSupplier
unfolding named_supplier
chosen_supplier (some id) name = do
  found ← gets (supplier_by_id id)
  or_raise found (value_error "Supplier not found in this organization")
chosen_supplier none name = named_supplier (strip (get_or name []))

-- `total if total > 0 else (payload.total_amount or 0)`
unfoldable pub total_or : Decimal → Option Decimal → Decimal
total_or total given =
    if leb_ℤ total.coefficient zero_ℤ then get_or given (scaled 0 zero_ℤ) else total

abbrev pub has_received : PurchaseOrderItem → Bool
has_received i = not (leb_ℤ i.quantity_received zero_ℤ)

module _ (column_2 : Decimal → ℤ) where
  -- The loop over the items: the rows, and the sum of their totals from the left.
  unfoldable pub add_items :
      List ItemCreate → Decimal → Action Db (List PurchaseOrderItem × Decimal)
  unfolding on_vendors vendor_id
  add_items [] total = pure ([], total)
  add_items (i ∷ is) total = do
    let line = i.quantity_ordered *ᵈ i.unit_price
    id ← on_vendors vendor_id
    rest ← add_items is (total +ᵈ line)
    pure (
      record {
        id = id;
        quantity_ordered = column_2 i.quantity_ordered;
        quantity_received = zero_ℤ;
        unit_price = column_2 i.unit_price;
        total_price = column_2 line;
      }
          ∷ rest.0,
      rest.1,
    )

  -- `create_purchase_order`
  unfoldable pub create : ℕ → Option ℕ → PurchaseOrderCreate → Action Db PurchaseOrder
  unfolding chosen_supplier register purchase_number on_vendors vendor_id save emit total_or
  create org actor_id p = do
    raise_if (any is_negative p.items || is_negative_total p.total_amount)
        (validation "Input should be greater than or equal to 0")
    raise_if (names_no_supplier p.supplier_id p.supplier_name)
        (validation "Select or enter a supplier")
    supplier ← chosen_supplier p.supplier_id p.supplier_name
    register org supplier
    number ← on_vendors (purchase_number org)
    id ← on_vendors vendor_id
    added ← add_items p.items (scaled 1 zero_ℤ)
    let po : PurchaseOrder = record {
      id = id;
      po_number = number;
      supplier_id = supplier.id;
      project_id = p.project_id;
      category = clean_category p.category;
      status = if p.save_as_draft then PoStatus.draft else PoStatus.waiting_approval;
      total_amount = column_2 (total_or added.1 p.total_amount);
      currency = p.currency;
      created_by_id = actor_id;
      approved_by_id = none;
      approved_at = none;
      archived_at = none;
      items = added.0;
    }
    save po
    if p.save_as_draft then pure tt else emit (Event.threshold id)
    pure po

  -- `update_purchase_order`
  unfoldable pub update : ℕ → ℕ → PurchaseOrderUpdate → Action Db PurchaseOrder
  unfolding order named_supplier register save total_or
  update org id p = do
    raise_if (any is_negative p.items || is_negative_total p.total_amount)
        (validation "Input should be greater than or equal to 0")
    po ← order id not_there
    raise_if (any has_received po.items)
        (value_error "A purchase order cannot be edited after goods have been received")
    raise_if (is_blank (strip p.supplier_name)) (value_error "Supplier name is required")
    supplier ← named_supplier (strip p.supplier_name)
    register org supplier
    added ← add_items p.items (scaled 0 zero_ℤ)
    let edited = record po {
      supplier_id = supplier.id;
      project_id = p.project_id;
      category = clean_category p.category;
      currency = p.currency;
      items = added.0;
      total_amount = column_2 (total_or added.1 p.total_amount);
    }
    save edited
    pure edited
