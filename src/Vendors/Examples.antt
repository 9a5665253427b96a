-- ===== src/Vendors/Examples.antt =====
-- Sample runs of the search for a supplier number.
use cestos_oversight.Base.{◌≡◌, none, some, [], ◌∷◌, true}
use cestos_oversight.Base.Text.{Text}
use cestos_oversight.Counters.{Counters, EntityType, business_number}
use cestos_oversight.Vendors.{Vendor, free_number, vendor_fuel}
use cestos_oversight.Vendors.Numbers.{IsFound, free_number_ends}

-- A vendor that holds the first number that the counter prints.
abbrev taken : Vendor
taken = record {
  id = 1;
  name = b'a' ∷ [];
  supplier_number = some (business_number EntityType.supplier 1);
  is_active = true;
  archived_at = none;
  phone = none;
  bank_account_details = none;
  payment_method = none;
  bank_account_type = none;
}

free_number_ends_example :
    (r : Text × Counters) × (free_number (vendor_fuel (taken ∷ [])) 1 (taken ∷ []) [] ≡ some r)
    × IsFound 1 (taken ∷ []) [] r
free_number_ends_example = free_number_ends 1 (taken ∷ []) []
