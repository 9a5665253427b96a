-- ===== src/Vendors.antt =====
-- The vendor master and the supplier and payee records beside it (app/services/vendors.py, over
-- `Supplier` of app/models/inventory.py and two tables of app/models/operational_logs.py), for one
-- organization.
pub mod Numbers
mod Examples
use cestos_oversight.Base.{
  ℕ, zero, suc, Option, none, some, List, [], ◌∷◌, ◌++◌, Bool, true, false, not, ◌&&◌,
  if◌then◌else◌, find, any, update_first,
}
use cestos_oversight.Base.Text.{Text, lower, strip, trim, is_filled, ◌=ᵗ◌}
use cestos_oversight.Base.Action.{Action, out_of_fuel, or_raise, pure, gets, modify, ◌>>=◌, ◌>>◌}
use cestos_oversight.Counters.{EntityType, Counters, next_business_number}

-- `Supplier`
pub record Vendor : Type 0 where
  pub id : ℕ
  pub name : Text
  pub supplier_number : Option Text
  pub is_active : Bool
  pub archived_at : Option ℕ
  pub phone : Option Text
  pub bank_account_details : Option Text
  pub payment_method : Option Text
  pub bank_account_type : Option Text

pub record FuelSupplier : Type 0 where
  pub id : ℕ
  pub name : Text

pub record OperationalPayee : Type 0 where
  pub id : ℕ
  pub name : Text
  pub is_active : Bool
  pub phone : Option Text
  pub bank_account_details : Option Text
  pub payment_method : Option Text

-- The tables that `ensure_vendor` reads and writes.
pub record VendorDb : Type 0 where
  pub vendors : List Vendor
  pub fuel_suppliers : List FuelSupplier
  pub payees : List OperationalPayee
  pub counters : Counters
  pub next_id : ℕ

-- The keyword arguments of `ensure_vendor`.
pub record Contact : Type 0 where
  pub phone : Option Text
  pub bank_account_details : Option Text
  pub payment_method : Option Text
  pub bank_account_type : Option Text

abbrev pub no_contact : Contact
no_contact = record {
  phone = none;
  bank_account_details = none;
  payment_method = none;
  bank_account_type = none;
}

-- `if given and not row.field: row.field = given`
abbrev pub fill : Option Text → Option Text → Option Text
fill given old = if is_filled given && not (is_filled old) then given else old

abbrev pub has_number : Text → Vendor → Bool
has_number number v = elim v.supplier_number [ none ↦ false | some t ↦ t =ᵗ number ]

-- The loop of `next_supplier_number`, on fuel: the first number that no vendor has.
unfoldable pub free_number : ℕ → ℕ → List Vendor → Counters → Option (Text × Counters)
free_number zero org vendors counters = none
free_number (suc fuel) org vendors counters =
    let drawn = next_business_number org EntityType.supplier counters in
    elim (any (has_number drawn.0) vendors) [
      | true ↦ free_number fuel org vendors drawn.1
      | false ↦ some drawn
    ]

-- The fuel that the loop gets: one more than there are vendors.
unfoldable pub vendor_fuel : List Vendor → ℕ
vendor_fuel [] = 1
vendor_fuel (_ ∷ vs) = suc (vendor_fuel vs)

-- `next_supplier_number`; `Numbers` shows that the fuel does not run out.
unfoldable pub next_supplier_number : ℕ → Action VendorDb Text
unfolding vendor_fuel free_number
next_supplier_number org = do
  drawn ← gets (λ db. free_number (vendor_fuel db.vendors) org db.vendors db.counters)
  found ← or_raise drawn out_of_fuel
  modify (λ db. record db { counters = found.1 })
  pure found.0

unfoldable pub vendor_id : Action VendorDb ℕ
vendor_id = do
  id ← gets (λ db. db.next_id)
  modify (λ db. record db { next_id = suc db.next_id })
  pure id

-- `func.lower(func.trim(name)) == clean_name.lower()`
abbrev pub is_named : Text → Text → Bool
is_named clean name = lower (trim name) =ᵗ lower clean

abbrev pub vendor_named : Text → VendorDb → Option Vendor
vendor_named clean db = find (λ (v : Vendor). is_named clean v.name) db.vendors

-- The vendor that a name without one gets.
unfoldable pub add_vendor : ℕ → Text → Contact → Action VendorDb Vendor
unfolding next_supplier_number vendor_id
add_vendor org clean c = do
  number ← next_supplier_number org
  id ← vendor_id
  let row : Vendor = record {
    id = id;
    name = clean;
    supplier_number = some number;
    is_active = true;
    archived_at = none;
    phone = c.phone;
    bank_account_details = c.bank_account_details;
    payment_method = c.payment_method;
    bank_account_type = c.bank_account_type;
  }
  modify (λ db. record db { vendors = db.vendors ++ row ∷ [] })
  pure row

-- The number of a vendor: its own, or a new one.
unfoldable pub number_of : ℕ → Vendor → Action VendorDb (Option Text)
unfolding next_supplier_number
number_of org v =
    if is_filled v.supplier_number
    then pure v.supplier_number
    else (do number ← next_supplier_number org; pure (some number))

-- The vendor that has the name already.
unfoldable pub revive_vendor : ℕ → Text → Contact → Vendor → Action VendorDb Vendor
unfolding number_of
revive_vendor org clean c v = do
  number ← number_of org v
  let row : Vendor = record v {
    is_active = true;
    archived_at = none;
    supplier_number = number;
    phone = fill c.phone v.phone;
    bank_account_details = fill c.bank_account_details v.bank_account_details;
    payment_method = fill c.payment_method v.payment_method;
    bank_account_type = fill c.bank_account_type v.bank_account_type;
  }
  modify (λ db. record db {
    vendors = update_first (λ (w : Vendor). is_named clean w.name) (λ w. row) db.vendors;
  })
  pure row

unfoldable pub save_vendor : ℕ → Text → Contact → Option Vendor → Action VendorDb Vendor
save_vendor org clean c none = add_vendor org clean c
save_vendor org clean c (some v) = revive_vendor org clean c v

-- The legacy supplier of the name.
unfoldable pub ensure_fuel_supplier : Text → Action VendorDb (Unit {0})
unfolding vendor_id
ensure_fuel_supplier clean = do
  known ← gets (λ db. any (λ (s : FuelSupplier). is_named clean s.name) db.fuel_suppliers)
  if known then pure tt else (do
    id ← vendor_id
    modify (λ db. record db {
      fuel_suppliers = db.fuel_suppliers ++ record { id = id; name = clean } ∷ [];
    }))

abbrev pub revived_payee : Contact → OperationalPayee → OperationalPayee
revived_payee c p = record p {
  is_active = true;
  phone = fill c.phone p.phone;
  bank_account_details = fill c.bank_account_details p.bank_account_details;
  payment_method = fill c.payment_method p.payment_method;
}

-- The payee of the name.
unfoldable pub ensure_payee : Text → Contact → Action VendorDb (Unit {0})
unfolding vendor_id
ensure_payee clean c = do
  known ← gets (λ db. any (λ (p : OperationalPayee). is_named clean p.name) db.payees)
  if known
      then modify (λ db. record db {
        payees =
            update_first (λ (p : OperationalPayee). is_named clean p.name) (revived_payee c)
              db.payees;
      })
      else (do
        id ← vendor_id
        modify (λ db. record db {
          payees =
              db.payees
              ++ record {
                id = id;
                name = clean;
                is_active = true;
                phone = c.phone;
                bank_account_details = c.bank_account_details;
                payment_method = c.payment_method;
              }
                ∷ [];
        }))

abbrev pub is_blank : Text → Bool
is_blank [] = true
is_blank (_ ∷ _) = false

-- `ensure_vendor`
unfoldable pub ensure_vendor : ℕ → Text → Contact → Action VendorDb (Option Vendor)
ensure_vendor org name c = if is_blank (strip name) then pure none else (do
  found ← gets (vendor_named (strip name))
  row ← save_vendor org (strip name) c found
  ensure_fuel_supplier (strip name)
  ensure_payee (strip name) c
  pure (some row))
