-- ===== src/Inventory/Model.antt =====
-- The rows of app/models/inventory.py that posting reads and writes, for one organization.
-- Quantities are counts of 0.0001 (`Numeric(18, 4)`) and values counts of 0.00000001
-- (`Numeric(24, 8)`). Times are microseconds and dates are days. Identifiers are numbers; those of
-- all tables differ, as UUIDs do. `created_at` is the time of the call that adds the row.
use cestos_oversight.Base.{ℕ, Option, List, Bool, ◌&&◌, ◌==◌, String, same_id}
use cestos_oversight.Base.Int.{ℤ, zero_ℤ}
use cestos_oversight.Base.Decimal.{Decimal}
use cestos_oversight.Base.Table.{Table}
use cestos_oversight.Counters.{Counters}

-- `tracking_method`
pub data Tracking : Type 0 where
  quantity_tracked batch serialized other_tracking : Tracking

pub record Item : Type 0 where
  pub id : ℕ
  pub base_unit_id : ℕ
  pub standard_unit_cost : Option ℤ
  pub default_currency : String
  pub tracking_method : Tracking
  pub requires_expiry_tracking : Bool
  pub requires_batch_tracking : Bool
  pub requires_serial_tracking : Bool
  pub requires_approval_to_issue : Bool
  pub is_returnable : Bool
  pub is_active : Bool

pub record UnitOfMeasure : Type 0 where
  pub precision : ℕ
  pub is_active : Bool

-- The factor is a count of 0.00000001.
pub record UnitConversion : Type 0 where
  pub item_id : Option ℕ
  pub from_unit_id : ℕ
  pub to_unit_id : ℕ
  pub conversion_factor : ℤ
  pub is_active : Bool

pub record Bin : Type 0 where
  pub store_id : ℕ
  pub is_active : Bool

pub data LotStatus : Type 0 where
  active_lot unavailable_lot : LotStatus

pub record Lot : Type 0 where
  pub id : ℕ
  pub item_id : ℕ
  pub lot_number : String
  pub expiry_date : Option ℕ
  pub status : LotStatus

pub data SerialStatus : Type 0 where
  in_stock reserved_serial issued installed quarantined in_transit_serial scrapped
        cancelled_serial :
      SerialStatus

pub record Serial : Type 0 where
  pub id : ℕ
  pub item_id : ℕ
  pub serial_number : String
  pub lot_id : Option ℕ
  pub current_store_id : Option ℕ
  pub current_bin_id : Option ℕ
  pub assigned_asset_id : Option ℕ
  pub status : SerialStatus

-- A bucket of stock, the columns of `uq_inventory_balance_bucket`.
pub record Key : Type 0 where
  pub item_id : ℕ
  pub store_id : ℕ
  pub bin_id : Option ℕ
  pub lot_id : Option ℕ

unfoldable pub same_key : Key → Key → Bool
same_key a b =
    (a.item_id == b.item_id)
    && (a.store_id == b.store_id)
    && same_id a.bin_id b.bin_id
    && same_id a.lot_id b.lot_id

-- `InventoryBalance`: the projection of the ledger on one bucket.
pub record Balance : Type 0 where
  pub quantity_on_hand : ℤ
  pub quantity_reserved : ℤ
  pub quantity_quarantined : ℤ
  pub quantity_in_transit : ℤ
  pub inventory_value : ℤ
  pub transit_value : ℤ

-- The signed changes of one effect; `BUCKET_FIELDS` that a call leaves out are zero.
pub record Deltas : Type 0 where
  pub quantity_on_hand : ℤ
  pub quantity_reserved : ℤ
  pub quantity_quarantined : ℤ
  pub quantity_in_transit : ℤ
  pub inventory_value : Decimal
  pub transit_value : Decimal

abbrev pub no_deltas : Deltas
no_deltas = record {
  quantity_on_hand = zero_ℤ;
  quantity_reserved = zero_ℤ;
  quantity_quarantined = zero_ℤ;
  quantity_in_transit = zero_ℤ;
  inventory_value = record { coefficient = zero_ℤ; places = 0 };
  transit_value = record { coefficient = zero_ℤ; places = 0 };
}

abbrev pub empty_balance : Balance
empty_balance = record {
  quantity_on_hand = zero_ℤ;
  quantity_reserved = zero_ℤ;
  quantity_quarantined = zero_ℤ;
  quantity_in_transit = zero_ℤ;
  inventory_value = zero_ℤ;
  transit_value = zero_ℤ;
}

-- `InventoryLedgerEntry`
pub record LedgerEntry : Type 0 where
  pub transaction_id : ℕ
  pub key : Key
  pub deltas : Deltas

-- The purposes of app/schemas/inventory.py; those that posting does not name are one.
pub data Purpose : Type 0 where
  opening_balance purchase_receipt other_receipt positive_adjustment negative_adjustment damage loss
        write_off quarantine release_from_quarantine other_purpose :
      Purpose

-- `transaction_type`; an adjustment has its purpose as its type.
pub data Movement : Type 0 where
  receipt_of adjustment_of : Purpose → Movement
  issue return_from_employee transfer_out transfer_in stock_count_adjustment reservation
        reservation_release reversal :
      Movement

-- `posting_key`: a document, its line and the type, or the transaction that is reversed.
pub data PostingKey : Type 0 where
  posting : ℕ → ℕ → Movement → PostingKey
  reversing : ℕ → PostingKey

pub record Transaction : Type 0 where
  pub id : ℕ
  pub transaction_number : ℕ
  pub posting_key : PostingKey
  pub transaction_type : Movement
  pub item_id : ℕ
  pub normalized_quantity : ℤ
  pub from_store_id : Option ℕ
  pub to_store_id : Option ℕ
  pub from_bin_id : Option ℕ
  pub to_bin_id : Option ℕ
  pub lot_id : Option ℕ
  pub serial_id : Option ℕ
  pub reference_id : ℕ
  pub unit_cost : Decimal
  pub total_cost : ℤ
  pub reversal_of_id : Option ℕ
  pub created_at : ℕ

-- The keys of `DOCUMENTS`.
pub data Kind : Type 0 where
  receipts issues returns transfers requests adjustments stock_counts : Kind

pub data Status : Type 0 where
  draft submitted pending_approval approved in_progress posted in_transit received cancelled
        rejected partially_issued fulfilled :
      Status

pub data Condition : Type 0 where
  good used_serviceable other_condition : Condition

-- A line of a document; `total_cost` is a count of 0.0001.
pub record Line : Type 0 where
  pub id : ℕ
  pub item_id : ℕ
  pub unit_id : ℕ
  pub quantity : ℤ
  pub normalized_quantity : ℤ
  pub bin_id : Option ℕ
  pub from_bin_id : Option ℕ
  pub to_bin_id : Option ℕ
  pub lot_id : Option ℕ
  pub serial_id : Option ℕ
  pub lot_number : Option String
  pub serial_number : Option String
  pub expiry_date : Option ℕ
  pub unit_cost : Option Decimal
  pub total_cost : Option ℤ
  pub system_quantity : Option ℤ
  pub counted_quantity : Option ℤ
  pub quantity_approved : Option ℤ
  pub quantity_issued : ℤ

-- A document, with its lines in the order (item, line) in which they are posted.
pub record Document : Type 0 where
  pub id : ℕ
  pub kind : Kind
  pub status : Status
  pub purpose : Purpose
  pub condition : Condition
  pub store_id : Option ℕ
  pub from_store_id : Option ℕ
  pub to_store_id : Option ℕ
  pub supplier_id : Option ℕ
  pub project_id : Option ℕ
  pub asset_id : Option ℕ
  pub employee_id : Option ℕ
  pub original_issue_id : Option ℕ
  pub request_id : Option ℕ
  pub reservation_id : Option ℕ
  pub approved_by_id : Option ℕ
  pub posted_by_id : Option ℕ
  pub received_by_id : Option ℕ
  pub reason : Option String
  pub notes : List String
  pub transaction_date : ℕ
  pub approved_at : Option ℕ
  pub posted_at : Option ℕ
  pub received_at : Option ℕ
  pub expected_return_at : Option ℕ
  pub lines : List Line

pub data ReservationStatus : Type 0 where
  active_reservation fulfilled_reservation cancelled_reservation expired released :
      ReservationStatus

pub record Reservation : Type 0 where
  pub id : ℕ
  pub item_id : ℕ
  pub store_id : ℕ
  pub bin_id : Option ℕ
  pub lot_id : Option ℕ
  pub serial_id : Option ℕ
  pub project_id : Option ℕ
  pub asset_id : Option ℕ
  pub quantity : ℤ
  pub fulfilled_quantity : ℤ
  pub expires_at : Option ℕ
  pub status : ReservationStatus

pub record Custody : Type 0 where
  pub item_id : ℕ
  pub serial_id : Option ℕ
  pub issue_id : ℕ
  pub quantity : ℤ
  pub returned_quantity : ℤ
  pub is_returned : Bool
  pub returned_at : Option ℕ
  pub condition_at_return : Option Condition

-- One audit record: what was done, as the words that its action joins, and to which row.
pub record AuditLog : Type 0 where
  pub action : List String
  pub entity_id : ℕ

pub record Project : Type 0 where
  pub is_closed : Bool

-- The database as a posting sees it. Of suppliers, stores, assets and employees only the activity
-- is read.
pub record Db : Type 0 where
  pub items : Table Item
  pub units : Table UnitOfMeasure
  pub conversions : List UnitConversion
  pub stores : Table Bool
  pub bins : Table Bin
  pub suppliers : Table Bool
  pub assets : Table Bool
  pub employees : Table Bool
  pub projects : Table Project
  pub lots : List Lot
  pub serials : List Serial
  pub documents : Table Document
  pub reservations : Table Reservation
  pub custody : List Custody
  pub transactions : List Transaction
  pub balances : Key → Option Balance
  pub entries : List LedgerEntry
  pub counters : Counters
  pub audit : List AuditLog
  pub next_id : ℕ
