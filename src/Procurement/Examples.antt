-- ===== src/Procurement/Examples.antt =====
-- Sample runs of requests on purchase orders.
use cestos_oversight.Base.{
  ◌≡◌, refl, none, some, List, [], ◌∷◌, true, false, ◌==◌, if◌then◌else◌, arith, Bool-cases, inl,
  inr,
}
use cestos_oversight.Base.Int.{ℤ, pos, zero_ℤ, neg_part, ◌≤ℤ◌}
use cestos_oversight.Base.Decimal.{Decimal, scaled, ◌≤ᵈ◌, ◌+ᵈ◌, ◌*ᵈ◌, fix, digits, max_ℕ}
use cestos_oversight.Base.Decimal.Signs.{IsNonneg, scaled_le_inv}
use cestos_oversight.Base.Action.{state_after, ◌>>=◌}
use cestos_oversight.Base.Text.{lower, strip, trim}
use cestos_oversight.Vendors.{ensure_vendor}
use cestos_oversight.Counters.{EntityType, business_number, next_business_number, is_counter}
use cestos_oversight.Procurement.Model.{PoStatus, PurchaseOrder, Db, ItemCreate, Portal, Actor}
use cestos_oversight.Procurement.Service.{Change, Request, change, serve_all}
use cestos_oversight.Procurement.Orders.{IsRounding, AreOrderly}
use cestos_oversight.Procurement.Kept.{serve_all-AreOrderly}
use cestos_oversight.Procurement.Statuses.{Moves, change_moves}

-- A column that keeps a number of two places and stores no other.
abbrev column : Decimal → ℤ
column d = if d.places == 2 then d.coefficient else zero_ℤ

column_nonneg : (d : Decimal) → IsNonneg d → neg_part (column d) ≡ 0
column_nonneg d h = ground arith

column_below : (d : Decimal) (n : ℤ) → neg_part n ≡ 0 → (d ≤ᵈ scaled 2 n) ≡ true → column d ≤ℤ n
column_below d n z h = elim (Bool-cases (d.places == 2)) [
  | inl e ↦
      let places : d.places ≡ 2 = ground arith in
      rw e (scaled_le_inv 2 d.coefficient n (rw places at h))
  | inr e ↦ rw e (ground arith)
]

column-IsRounding : IsRounding column
column-IsRounding = record { nonneg = column_nonneg; below = column_below }

abbrev no_db : Db
no_db = record {
  vendors = record { vendors = []; fuel_suppliers = []; payees = []; counters = []; next_id = 1 };
  orders = λ id. none;
  events = [];
}

abbrev chief : Actor
chief = record { id = 5; is_superuser = false; portal = Portal.executive }

abbrev pipes : ItemCreate
pipes = record { quantity_ordered = scaled 2 (pos 500); unit_price = scaled 2 (pos 1250) }

-- An order that is made, approved and partly received, the newest request first.
abbrev requests : List Request
requests =
    Request.changed 4 (Change.goods (λ id. some (scaled 2 (pos 200))))
    ∷ Request.changed 4 (Change.approved chief 90)
    ∷ Request.ordered (some 3) (record {
      supplier_id = none;
      supplier_name = some (b'a' ∷ []);
      project_id = none;
      category = none;
      total_amount = none;
      currency = b'x' ∷ [];
      items = pipes ∷ [];
      save_as_draft = false;
    })
    ∷ []

abbrev later : Db
later = serve_all column 1 requests no_db

abbrev ordered : PurchaseOrder
ordered = record {
  id = 4;
  po_number = business_number EntityType.purchase_order 1;
  supplier_id = 1;
  project_id = none;
  category = none;
  status = PoStatus.partially_received;
  total_amount = zero_ℤ;
  currency = b'x' ∷ [];
  created_by_id = some 3;
  approved_by_id = some 5;
  approved_at = some 90;
  archived_at = none;
  items =
      record {
        id = 5;
        quantity_ordered = pos 500;
        quantity_received = pos 200;
        unit_price = pos 1250;
        total_price = zero_ℤ;
      }
      ∷ [];
}

run : later.orders 4 ≡ some ordered
unfolding serve_all ◌>>=◌ ensure_vendor ◌+ᵈ◌ ◌*ᵈ◌ ◌≤ᵈ◌ fix digits max_ℕ lower strip trim
    business_number next_business_number cestos_oversight.Procurement.Lookup.known_or_new
    cestos_oversight.Vendors.save_vendor cestos_oversight.Vendors.add_vendor
    cestos_oversight.Vendors.ensure_fuel_supplier cestos_oversight.Vendors.ensure_payee
    cestos_oversight.Procurement.Drafts.add_items cestos_oversight.Procurement.Goods.receive_items
    is_counter
run = refl

serve_all-AreOrderly_example : AreOrderly later
serve_all-AreOrderly_example =
    serve_all-AreOrderly column column-IsRounding 1 requests no_db (λ id po e. cc)

-- The rest of the pipes.
abbrev rest : Change
rest = Change.goods (λ id. some (scaled 2 (pos 300)))

change_moves_example :
    (po' : PurchaseOrder) × ((state_after (change column 1 4 rest later) later).orders 4 ≡ some po')
    × Moves PoStatus.partially_received po'.status
change_moves_example =
    change_moves column 1 4 rest later
      (serve_all-AreOrderly column column-IsRounding 1 requests no_db (λ id po e. cc)) 4 ordered run
