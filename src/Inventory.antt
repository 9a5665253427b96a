-- ===== src/Inventory.antt =====
-- Inventory posting (app/services/inventory.py, over the tables of app/models/inventory.py).
-- `Model` has the rows and the state, `References` the lookups and their validation, `Quantity`
-- the unit conversion, `Ledger` the buckets, transactions and effects; `PostLine` posts a line,
-- `Documents` acts on a document, `Reversals` undoes a movement, and `Kept` has what all keep.
pub mod Model
pub mod References
pub mod Quantity
pub mod Ledger
pub mod Tracking
pub mod Posting
pub mod Receipts
pub mod Issues
pub mod Returns
pub mod Transfers
pub mod Adjustments
pub mod PostLine
pub mod Statuses
pub mod DocumentLines
pub mod Documents
pub mod Reservations
pub mod Reversals
pub mod Kept
mod Examples
