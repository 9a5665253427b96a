-- ===== src/Inventory/References.antt =====
-- `InventoryService.ref` and `validate_refs` (app/services/inventory.py): lookups of related rows,
-- which are those of the actor's organization, and the checks on the references of a request.
use cestos_oversight.Base.{
  ℕ, ◌+◌, Option, none, some, Bool, true, not, ◌==◌, String, ltb, if◌then◌else◌, find,
}
use cestos_oversight.Base.Action.{
  Action, Error, not_found, validation, pure, gets, or_raise, raise_if, ◌>>=◌, ◌>>◌,
}
use cestos_oversight.Inventory.Model.{Lot, Serial, Document, Kind, Db}

-- Who acts, and when: the actor, the time and the date of the call.
pub record Env : Type 0 where
  pub organization_id : ℕ
  pub actor_id : ℕ
  pub now : ℕ
  pub today : ℕ

abbrev pub missing : Error
missing = not_found "Related inventory record not found"

module _ {A : Type 0} where
  -- `ref` on a row that must be there.
  unfoldable pub ref : (Db → Option A) → Action Db A
  ref row = do found ← gets row; or_raise found missing

abbrev pub lot_row : ℕ → Db → Option Lot
lot_row id db = find (λ (l : Lot). l.id == id) db.lots

abbrev pub serial_row : ℕ → Db → Option Serial
serial_row id db = find (λ (s : Serial). s.id == id) db.serials

unfoldable pub kind_code : Kind → ℕ
kind_code Kind.receipts = 0
kind_code Kind.issues = 1
kind_code Kind.returns = 2
kind_code Kind.transfers = 3
kind_code Kind.requests = 4
kind_code Kind.adjustments = 5
kind_code Kind.stock_counts = 6

unfoldable pub same_kind : Kind → Kind → Bool
unfolding kind_code
same_kind a b = kind_code a == kind_code b

-- The row of a document in the table of its kind.
of_kind : Kind → Option Document → Option Document
of_kind kind none = none
of_kind kind (some d) = if same_kind d.kind kind then some d else none

unfoldable pub document_row : Kind → ℕ → Db → Option Document
unfolding of_kind
document_row kind id db = of_kind kind (db.documents id)

-- The references of a request: the keys of `REFS` that posting passes, and its date.
pub record Refs : Type 0 where
  pub unit_id : Option ℕ
  pub item_id : Option ℕ
  pub store_id : Option ℕ
  pub from_store_id : Option ℕ
  pub to_store_id : Option ℕ
  pub bin_id : Option ℕ
  pub from_bin_id : Option ℕ
  pub to_bin_id : Option ℕ
  pub supplier_id : Option ℕ
  pub project_id : Option ℕ
  pub asset_id : Option ℕ
  pub employee_id : Option ℕ
  pub lot_id : Option ℕ
  pub serial_id : Option ℕ
  pub original_issue_id : Option ℕ
  pub request_id : Option ℕ
  pub reservation_id : Option ℕ
  pub transaction_date : Option ℕ

abbrev pub no_refs : Refs
no_refs = record {
  unit_id = none;
  item_id = none;
  store_id = none;
  from_store_id = none;
  to_store_id = none;
  bin_id = none;
  from_bin_id = none;
  to_bin_id = none;
  supplier_id = none;
  project_id = none;
  asset_id = none;
  employee_id = none;
  lot_id = none;
  serial_id = none;
  original_issue_id = none;
  request_id = none;
  reservation_id = none;
  transaction_date = none;
}

module _ {A : Type 0} where
  -- One key of the first loop: the row is there and passes the test, or the key is not given.
  unfoldable pub check_ref :
      (ℕ → Db → Option A) → (A → Bool) → String → Option ℕ → Action Db (Unit {0})
  check_ref row active message none = pure tt
  check_ref row active message (some id) = do
    found ← ref (row id)
    raise_if (not (active found)) (validation message)

-- A bin belongs to the store that is given with it.
unfoldable pub check_bin : Option ℕ → Option ℕ → Action Db (Unit {0})
check_bin none parent = pure tt
check_bin (some id) none = do ref (λ db. db.bins id); pure tt
check_bin (some id) (some store) = do
  found ← ref (λ db. db.bins id)
  raise_if (not (found.store_id == store)) (validation "Bin belongs to another store")

module _ {A : Type 0} where
  -- A lot or a serial belongs to the item that is given with it.
  unfoldable pub check_item :
      (ℕ → Db → Option A) → (A → ℕ) → Option ℕ → Option ℕ → Action Db (Unit {0})
  check_item row owner (some id) (some item) = do
    found ← ref (row id)
    raise_if (not (owner found == item)) (validation "Lot or serial belongs to another item")
  check_item row owner none item = pure tt
  check_item row owner (some id) none = pure tt

unfoldable pub check_date : Env → Option ℕ → Action Db (Unit {0})
check_date env none = pure tt
check_date env (some at) =
    raise_if (ltb (env.now + 60000000) at)
      (validation "Stock movements cannot be posted in the future")

abbrev any_row {ℓ} : {A : Type ℓ} → A → Bool
any_row _ = true

-- `validate_refs` with `active=True`
unfoldable pub validate_refs : Env → Refs → Action Db (Unit {0})
unfolding check_ref check_bin check_item check_date
validate_refs env d = do
  check_ref (λ id db. db.units id) (λ u. u.is_active) "unit_id is archived" d.unit_id
  check_ref (λ id db. db.items id) (λ i. i.is_active) "item_id is archived" d.item_id
  check_ref (λ id db. db.stores id) (λ a. a) "store_id is archived" d.store_id
  check_ref (λ id db. db.stores id) (λ a. a) "from_store_id is archived" d.from_store_id
  check_ref (λ id db. db.stores id) (λ a. a) "to_store_id is archived" d.to_store_id
  check_ref (λ id db. db.bins id) (λ b. b.is_active) "bin_id is archived" d.bin_id
  check_ref (λ id db. db.bins id) (λ b. b.is_active) "from_bin_id is archived" d.from_bin_id
  check_ref (λ id db. db.bins id) (λ b. b.is_active) "to_bin_id is archived" d.to_bin_id
  check_ref (λ id db. db.suppliers id) (λ a. a) "supplier_id is archived" d.supplier_id
  check_ref (λ id db. db.projects id) (λ p. not p.is_closed) "Project is closed" d.project_id
  check_ref (λ id db. db.assets id) (λ a. a) "asset_id is archived" d.asset_id
  check_ref (λ id db. db.employees id) (λ a. a) "employee_id is archived" d.employee_id
  check_ref lot_row any_row "" d.lot_id
  check_ref serial_row any_row "" d.serial_id
  check_ref (document_row Kind.issues) any_row "" d.original_issue_id
  check_ref (document_row Kind.requests) any_row "" d.request_id
  check_ref (λ id db. db.reservations id) any_row "" d.reservation_id
  check_bin d.bin_id d.store_id
  check_bin d.from_bin_id d.from_store_id
  check_bin d.to_bin_id d.to_store_id
  check_item lot_row (λ l. l.item_id) d.lot_id d.item_id
  check_item serial_row (λ s. s.item_id) d.serial_id d.item_id
  check_date env d.transaction_date
