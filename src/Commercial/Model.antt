-- ===== src/Commercial/Model.antt =====
-- The rows of app/models/drilling_commercial.py.
use cestos_oversight.Base.{ℕ, Option, List}
use cestos_oversight.Base.Int.{ℤ}
use cestos_oversight.Base.Text.{Text}

pub data ContractStatus : Type 0 where
  draft active expired superseded : ContractStatus

pub data RateType : Type 0 where
  drilling_meter standby_hourly mobilization_flat demobilization_flat daywork_hourly : RateType

pub data RevenueCategory : Type 0 where
  drilling_meterage standby_time mobilization daywork reimbursable : RevenueCategory

pub record ContractRateCard : Type 0 where
  pub id : ℕ
  pub rate_type : RateType
  pub drilling_method : Option Text
  pub depth_from_m : Option ℤ
  pub depth_to_m : Option ℤ
  pub unit_rate : ℤ

pub record ProjectContract : Type 0 where
  pub id : ℕ
  pub project_id : ℕ
  pub currency : Text
  pub start_date : ℕ
  pub status : ContractStatus
  pub archived_at : Option ℕ
  pub rate_cards : List ContractRateCard

pub record RevenueSubledgerEntry : Type 0 where
  pub project_id : ℕ
  pub rig_id : Option ℕ
  pub shift_report_id : Option ℕ
  pub contract_id : Option ℕ
  pub rate_card_id : Option ℕ
  pub revenue_category : RevenueCategory
  pub quantity : ℤ
  pub unit_rate : ℤ
  pub total_revenue : ℤ
  pub currency : Text
  pub total_revenue_base : ℤ
  pub posted_at : ℕ
  pub created_by_id : Option ℕ

pub data CostCategory : Type 0 where
  labour fuel maintenance_parts consumables logistics camp subcontractor overhead : CostCategory

-- The column `source_entity_type` names the table of `source_entity_id`; work orders alone are
-- modelled as a source.
pub record CostSubledgerEntry : Type 0 where
  pub project_id : ℕ
  pub rig_id : Option ℕ
  pub cost_category : CostCategory
  pub description : Text
  pub quantity : ℤ
  pub unit_cost : ℤ
  pub total_cost : ℤ
  pub currency : Text
  pub total_cost_base : ℤ
  pub source_entity_id : Option ℕ
  pub posted_at : ℕ
  pub created_by_id : Option ℕ
