-- ===== src/Inventory/Kept.antt =====
-- Every posting keeps each balance a covered projection of the ledger (app/services/inventory.py),
-- branch by branch, up to the actions of a document and the calls on reservations.
pub mod Branches
pub mod Adjusted
pub mod Tracked
pub mod Lines
pub mod Service
pub mod Reversed
