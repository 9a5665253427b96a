-- ===== src/Commercial.antt =====
-- Contracts and the revenue subledger (app/services/commercial.py), for one organization. Columns
-- `Numeric(14, 2)` are counts of 0.01; the rounding of a product to such a column is the parameter
-- `column_2`. The text of an entry and its exchange rate, which is 1, are left out.
pub mod Model
pub mod Revenue
mod Depths
pub mod Billing
pub mod Reposting
pub mod Samples
mod Examples
