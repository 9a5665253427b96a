-- ===== src/Lib.antt =====
-- The core of Cestos Oversight, the service that runs a drilling company's stock, sessions and
-- records (the Python package app).
--
-- The parts and their files:
--   * Base: shared names. `Base.Action` is a service call inside one database transaction
--     (app/db/session.py, app/core/exceptions.py): state passing with errors; an error rolls the
--     transaction back, so it carries no state. `Base.Decimal` is Python's decimal arithmetic with
--     28 digits, half to even. `Base.Keeps`, `Base.Gives`, `Base.Leads`, `Base.Never` and
--     `Base.Yields` are the rules by which proofs go through a call: what it keeps, what it returns
--     in a state with an invariant, where it leads, that it always fails, and what it returns.
--   * Counters: business numbers (app/services/counters.py). `next_business_number` increments the
--     row of an organization and entity type and prints it.
--   * Auth: login sessions (app/services/auth.py, with app/core/security.py,
--     app/repositories/user.py and app/services/organization.py): `login`, `refresh`, `logout`.
--   * Inventory: posting of stock (app/services/inventory.py over app/models/inventory.py). `Model`
--     has the rows and the state `Db`, `References` has `ref` and `validate_refs`, `Quantity` has
--     `quantity`, `Ledger` has `bucket`, `effect`, `transaction` and `audit`, `Tracking` has
--     `tracked`, `PostLine` has `post_line` with its branches in `Receipts`, `Issues`, `Returns`,
--     `Transfers` and `Adjustments`, `Statuses` and `DocumentLines` have the tests and loops of
--     `action`, which is in `Documents`, `Reservations` has `reserve` and `release`, and
--     `Reversals` has `reverse`. Every movement of stock goes through `transaction` or `reverse`,
--     which draw its number from the counters, and `effect`, which writes a balance and its ledger
--     entry.
--
--   * Vendors: the vendor master (app/services/vendors.py): `ensure_vendor`, and the search for a
--     number in `next_supplier_number`.
--   * Procurement: purchase orders (app/services/procurement.py and
--     app/api/v1/endpoints/procurement.py). `Drafts` has `create` and `update`, `Goods` has
--     `receive_goods`, `Approval` has `submit` and `approve`, `Service` has requests in any order.
--     A new order draws its number from the counters and registers its supplier as a vendor.
--   * Drilling: shift reports (app/services/drilling.py and app/services/project_sites.py). `Store`
--     has the tables and `validate_site_intervals`, `Update` has `recalculate_shift_totals` and
--     `update_shift_report`, `Workflow` has the submission, approval (`approve`), return
--     (`send_back`) and deletion, `Service` has requests in any order. An approval deepens the holes
--     and posts the revenue.
--   * Commercial: the revenue subledger (app/services/commercial.py). `Revenue` has
--     `calculate_and_post_shift_revenue` as `post_shift_revenue`.
--   * Maintenance: work orders (app/services/maintenance.py and
--     app/api/v1/endpoints/maintenance.py). `Orders` has the rows that are written, and `Work` has
--     `create_work_order`, `add_cost_line_to_work_order`, the endpoint's `update_work_order` and
--     `complete_work_order` as `create`, `add_cost_line`, `update` and `complete`, with requests in
--     any order. A completion posts the costs of the order and resolves its defect. A value that its column does not take
--     is an error; a notification is the id of its order, and is taken not to fail.
--   * Hse: incidents and corrective actions (app/services/hse.py), under the names of the service,
--     and requests in any order. A new incident checks its site as a shift report does.
--
-- How the model stands to the code. A row is a record of the columns that a modelled operation
-- reads or that a property needs; other columns are left out. Tables are those of one
-- organization, as each query filters by it. Calls run one after another: the locks of the
-- inventory, the counters and the sessions make them so, and for the services that take no lock it
-- is an assumption. Quantities of stock are integer counts of 0.0001 and values counts of
-- 0.00000001, those of orders, drilling and revenue are counts of 0.01, with sums and products in
-- `Decimal`; times are microseconds and dates are days. The clock and the drawn identifiers are
-- arguments or come from a counter in the state. The rounding of a column `Numeric(18, 8)` or
-- `Numeric(14, 2)`, the hash of a token and the check of a password belong to code outside the
-- repository and are parameters; a theorem that needs more of a column than that it is a function
-- has the record `IsRounding` of `Procurement.Orders` as its hypothesis. Fuel is in two places:
-- `count_digits` of `Base.Decimal`, where a number has fewer digits than itself plus one, and
-- `free_number` of `Vendors`, which gets one unit more than there are vendors.
--
-- Not modelled: the drafts of documents (`document_save`), `request_issue`, master data and
-- reports of the inventory; attachments of purchase orders and the assignments of projects that
-- their endpoints read; the creation of shift reports, drilling programs and holes, contracts,
-- costs and financial summaries; the reliability summary of assets; the other services (equipment,
-- HR, projects, field portal, notifications), which work on tables of their own; HTTP endpoints
-- other than those named above, migrations, scripts and the front end, which are input and output.
pub mod Base
pub mod Counters
pub mod Auth
pub mod Inventory
pub mod Vendors
pub mod Procurement
pub mod Drilling
pub mod Commercial
pub mod Maintenance
pub mod Hse
