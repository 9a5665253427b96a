-- ===== src/Maintenance/Model.antt =====
-- The rows of app/models/maintenance_hse.py for work orders, and the requests on them.
use cestos_oversight.Base.{ℕ, Option, List, Bool}
use cestos_oversight.Base.Int.{ℤ}
use cestos_oversight.Base.Decimal.{Decimal}
use cestos_oversight.Base.Table.{Table}
use cestos_oversight.Base.Text.{Text}
use cestos_oversight.Counters.{Counters}
use cestos_oversight.Commercial.Model.{CostSubledgerEntry}

pub data WorkOrderStatus : Type 0 where
  opened in_progress waiting_parts completed cancelled : WorkOrderStatus

pub record WorkOrderCostLine : Type 0 where
  pub cost_type : Text
  pub description : Text
  pub quantity : ℤ
  pub unit_cost : ℤ
  pub total_cost : ℤ
  pub currency : Text
  pub posted_to_subledger : Bool

pub record MaintenanceWorkOrder : Type 0 where
  pub id : ℕ
  pub wo_number : Text
  pub asset_id : ℕ
  pub project_id : Option ℕ
  pub defect_id : Option ℕ
  pub title : Text
  pub status : WorkOrderStatus
  pub root_cause : Option Text
  pub remedy : Option Text
  pub downtime_hours : ℤ
  pub estimated_lost_contribution : ℤ
  pub completed_at : Option ℕ
  pub completed_by_id : Option ℕ
  pub notes : Option Text
  pub created_at : ℕ
  pub archived_at : Option ℕ
  pub cost_lines : List WorkOrderCostLine

pub record AssetDefect : Type 0 where
  pub organization_id : ℕ
  pub status : Text
  pub resolved_at : Option ℕ
  pub notes : Option Text

-- The tables of one organization. `is_asset` and `is_project` tell the ids of assets and
-- of projects, to which orders and cost entries refer.
pub record Db : Type 0 where
  pub is_asset : ℕ → Bool
  pub is_project : ℕ → Bool
  pub orders : Table MaintenanceWorkOrder
  pub defects : Table AssetDefect
  pub costs : List CostSubledgerEntry
  pub counters : Counters
  pub next_id : ℕ
  pub notified : List ℕ

pub record CostLineCreate : Type 0 where
  pub cost_type : Text
  pub description : Text
  pub quantity : Decimal
  pub unit_cost : Decimal
  pub currency : Text

pub record WorkOrderCreate : Type 0 where
  pub asset_id : ℕ
  pub project_id : Option ℕ
  pub defect_id : Option ℕ
  pub title : Text
  pub notes : Option Text
  pub cost_lines : List CostLineCreate

-- A field that the request leaves out is `none`; a request may null the columns that take a null.
pub record WorkOrderUpdate : Type 0 where
  pub title : Option Text
  pub status : Option WorkOrderStatus
  pub root_cause : Option (Option Text)
  pub remedy : Option (Option Text)
  pub downtime_hours : Option Decimal
  pub estimated_lost_contribution : Option Decimal
  pub notes : Option (Option Text)

pub record CompleteRequest : Type 0 where
  pub root_cause : Option Text
  pub remedy : Option Text
  pub downtime_hours : Decimal
  pub estimated_lost_contribution : Decimal
  pub notes : Option Text
