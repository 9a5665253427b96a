-- ===== src/Procurement.antt =====
-- Purchase orders (app/services/procurement.py, with the submission and the approval of
-- app/api/v1/endpoints/procurement.py), for one organization. Columns `Numeric(14, 2)` are counts of
-- 0.01; their rounding is the parameter `column_2`.
pub mod Model
pub mod Lookup
pub mod Drafts
pub mod Goods
pub mod Approval
pub mod Orders
pub mod Service
pub mod Statuses
pub mod Kept
mod Examples
