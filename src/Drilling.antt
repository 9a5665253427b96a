-- ===== src/Drilling.antt =====
-- Shift reports of drilling and their approval (app/services/drilling.py), for one organization.
-- Columns `Numeric(18, 2)` are counts of 0.01; sums and differences of such numbers have fewer than
-- 28 digits, so they are exact.
pub mod Model
pub mod Store
pub mod Workflow
pub mod Update
pub mod Service
pub mod Reads
pub mod Fees
pub mod Final
pub mod Holes
mod Examples
