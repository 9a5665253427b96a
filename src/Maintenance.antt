-- ===== src/Maintenance.antt =====
-- Maintenance work orders (app/services/maintenance.py, app/api/v1/endpoints/maintenance.py).
pub mod Model
pub mod Orders
pub mod Work
pub mod Costs
pub mod Kept
pub mod Completion
mod Examples
