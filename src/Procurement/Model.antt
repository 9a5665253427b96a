-- ===== src/Procurement/Model.antt =====
-- The rows of app/models/procurement.py and the requests of app/schemas/procurement.py.
use cestos_oversight.Base.{ℕ, Option, List, Bool}
use cestos_oversight.Base.Int.{ℤ}
use cestos_oversight.Base.Decimal.{Decimal}
use cestos_oversight.Base.Table.{Table}
use cestos_oversight.Base.Text.{Text}
use cestos_oversight.Vendors.{VendorDb}

pub data PoStatus : Type 0 where
  draft waiting_approval approved sent_to_supplier partially_received received closed cancelled :
      PoStatus

pub record PurchaseOrderItem : Type 0 where
  pub id : ℕ
  pub quantity_ordered : ℤ
  pub quantity_received : ℤ
  pub unit_price : ℤ
  pub total_price : ℤ

pub record PurchaseOrder : Type 0 where
  pub id : ℕ
  pub po_number : Text
  pub supplier_id : ℕ
  pub project_id : Option ℕ
  pub category : Option Text
  pub status : PoStatus
  pub total_amount : ℤ
  pub currency : Text
  pub created_by_id : Option ℕ
  pub approved_by_id : Option ℕ
  pub approved_at : Option ℕ
  pub archived_at : Option ℕ
  pub items : List PurchaseOrderItem

-- The calls of `emit_configured_event` and `emit_event`, with the order that they name.
pub data Event : Type 0 where
  threshold goods_received submitted_for_approval approval : ℕ → Event

pub record Db : Type 0 where
  pub vendors : VendorDb
  pub orders : Table PurchaseOrder
  pub events : List Event

pub record ItemCreate : Type 0 where
  pub quantity_ordered : Decimal
  pub unit_price : Decimal

pub record PurchaseOrderCreate : Type 0 where
  pub supplier_id : Option ℕ
  pub supplier_name : Option Text
  pub project_id : Option ℕ
  pub category : Option Text
  pub total_amount : Option Decimal
  pub currency : Text
  pub items : List ItemCreate
  pub save_as_draft : Bool

pub record PurchaseOrderUpdate : Type 0 where
  pub supplier_name : Text
  pub project_id : Option ℕ
  pub category : Option Text
  pub total_amount : Option Decimal
  pub currency : Text
  pub items : List ItemCreate

-- `portal_type`
pub data Portal : Type 0 where
  finance executive other_portal : Portal

pub record Actor : Type 0 where
  pub id : ℕ
  pub is_superuser : Bool
  pub portal : Portal
