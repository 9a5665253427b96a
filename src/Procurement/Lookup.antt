-- ===== src/Procurement/Lookup.antt =====
-- Lookups and writes of purchase orders and their suppliers (app/services/procurement.py).
use cestos_oversight.Base.{ℕ, Option, none, some, [], ◌∷◌, ◌++◌, is_set, find, ◌==◌, if◌then◌else◌}
use cestos_oversight.Base.Table.{put}
use cestos_oversight.Base.Text.{Text, lower, ◌=ᵗ◌}
use cestos_oversight.Base.Action.{
  Action, ok, err, Error, value_error, pure, gets, or_raise, modify, ◌>>=◌, ◌>>◌,
}
use cestos_oversight.Vendors.{VendorDb, FuelSupplier, vendor_id, ensure_vendor, no_contact}
use cestos_oversight.Procurement.Model.{PurchaseOrder, Event, Db}

module _ {A : Type 0} where
  -- A call on the vendor tables.
  unfoldable pub on_vendors : Action VendorDb A → Action Db A
  on_vendors m db = elim (m db.vendors) [
    | ok r ↦ ok (r.0, record db { vendors = r.1 })
    | err e ↦ err e
  ]

-- `get_purchase_order`: an order that is not archived.
abbrev pub live_order : ℕ → Db → Option PurchaseOrder
live_order id db = elim (db.orders id) [
  | none ↦ none
  | some po ↦ if is_set po.archived_at then none else some po
]

unfoldable pub order : ℕ → Error → Action Db PurchaseOrder
order id missing = do found ← gets (live_order id); or_raise found missing

abbrev pub not_there : Error
not_there = value_error "Purchase Order not found."

-- The row is written back.
unfoldable pub save : PurchaseOrder → Action Db (Unit {0})
save po = modify (λ db. record db { orders = put po.id po db.orders })

unfoldable pub emit : Event → Action Db (Unit {0})
emit e = modify (λ db. record db { events = db.events ++ e ∷ [] })

abbrev pub supplier_by_id : ℕ → Db → Option FuelSupplier
supplier_by_id id db = find (λ (s : FuelSupplier). s.id == id) db.vendors.fuel_suppliers

-- `func.lower(FuelSupplier.name) == supplier_name.lower()`
abbrev pub supplier_by_name : Text → Db → Option FuelSupplier
supplier_by_name name db =
    find (λ (s : FuelSupplier). lower s.name =ᵗ lower name) db.vendors.fuel_suppliers

unfoldable pub add_supplier : Text → Action VendorDb FuelSupplier
unfolding vendor_id
add_supplier name = do
  id ← vendor_id
  let row : FuelSupplier = record { id = id; name = name }
  modify (λ db. record db { fuel_suppliers = db.fuel_suppliers ++ row ∷ [] })
  pure row

unfoldable pub known_or_new : Text → Option FuelSupplier → Action Db FuelSupplier
unfolding on_vendors add_supplier
known_or_new name (some s) = pure s
known_or_new name none = on_vendors (add_supplier name)

-- The supplier of a name, which is made where there is none.
unfoldable pub named_supplier : Text → Action Db FuelSupplier
named_supplier name = do found ← gets (supplier_by_name name); known_or_new name found

-- `ensure_vendor` for the supplier of an order.
unfoldable pub register : ℕ → FuelSupplier → Action Db (Unit {0})
unfolding on_vendors
register org s = do on_vendors (ensure_vendor org s.name no_contact); pure tt
