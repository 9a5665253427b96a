-- ===== src/Counters.antt =====
-- Business numbers (app/services/counters.py): one counter for each organization and entity
-- type, and the printed form of its next value.
pub mod Format
pub mod Names
pub mod Issue
mod Examples
use cestos_oversight.Base.{ℕ, ◌+◌, List, [], ◌∷◌, ◌++◌, Bool, ◌&&◌, ◌==◌, if◌then◌else◌}
use cestos_oversight.Base.Text.{Text}
use cestos_oversight.Counters.Format.{padded}

-- The keys of `PREFIXES`.
pub data EntityType : Type 0 where
  employee client project location assignment asset inventory_item inventory_store inventory_receipt
        inventory_issue inventory_return inventory_transfer inventory_request inventory_adjustment
        inventory_stock_count inventory_transaction inventory_reservation drilling_program
        drilling_hole drilling_shift maintenance_work_order hse_incident hse_corrective_action
        purchase_order supplier supervisor_scorecard commercial_opportunity :
      EntityType

-- The prefix of each key, and its place in the dictionary, by which keys are compared.
unfoldable pub prefix : EntityType → Text
prefix employee = b'E' ∷ b'M' ∷ b'P' ∷ []
prefix client = b'C' ∷ b'L' ∷ b'I' ∷ []
prefix project = b'P' ∷ b'R' ∷ b'J' ∷ []
prefix location = b'S' ∷ b'I' ∷ b'T' ∷ b'E' ∷ []
prefix assignment = b'A' ∷ b'S' ∷ b'N' ∷ []
prefix asset = b'A' ∷ b'S' ∷ b'T' ∷ []
prefix inventory_item = b'I' ∷ b'T' ∷ b'M' ∷ []
prefix inventory_store = b'S' ∷ b'T' ∷ b'R' ∷ []
prefix inventory_receipt = b'G' ∷ b'R' ∷ b'N' ∷ []
prefix inventory_issue = b'I' ∷ b'S' ∷ b'S' ∷ []
prefix inventory_return = b'R' ∷ b'T' ∷ b'N' ∷ []
prefix inventory_transfer = b'T' ∷ b'R' ∷ b'F' ∷ []
prefix inventory_request = b'R' ∷ b'E' ∷ b'Q' ∷ []
prefix inventory_adjustment = b'A' ∷ b'D' ∷ b'J' ∷ []
prefix inventory_stock_count = b'C' ∷ b'N' ∷ b'T' ∷ []
prefix inventory_transaction = b'I' ∷ b'N' ∷ b'V' ∷ []
prefix inventory_reservation = b'R' ∷ b'S' ∷ b'V' ∷ []
prefix drilling_program = b'D' ∷ b'P' ∷ b'G' ∷ []
prefix drilling_hole = b'D' ∷ b'H' ∷ b'L' ∷ []
prefix drilling_shift = b'D' ∷ b'S' ∷ b'R' ∷ []
prefix maintenance_work_order = b'M' ∷ b'W' ∷ b'O' ∷ []
prefix hse_incident = b'H' ∷ b'S' ∷ b'E' ∷ []
prefix hse_corrective_action = b'C' ∷ b'A' ∷ b'P' ∷ []
prefix purchase_order = b'P' ∷ b'O' ∷ []
prefix supplier = b'S' ∷ b'U' ∷ b'P' ∷ []
prefix supervisor_scorecard = b'S' ∷ b'C' ∷ b'R' ∷ []
prefix commercial_opportunity = b'O' ∷ b'P' ∷ b'P' ∷ []

unfoldable pub place : EntityType → ℕ
place employee = 0
place client = 1
place project = 2
place location = 3
place assignment = 4
place asset = 5
place inventory_item = 6
place inventory_store = 7
place inventory_receipt = 8
place inventory_issue = 9
place inventory_return = 10
place inventory_transfer = 11
place inventory_request = 12
place inventory_adjustment = 13
place inventory_stock_count = 14
place inventory_transaction = 15
place inventory_reservation = 16
place drilling_program = 17
place drilling_hole = 18
place drilling_shift = 19
place maintenance_work_order = 20
place hse_incident = 21
place hse_corrective_action = 22
place purchase_order = 23
place supplier = 24
place supervisor_scorecard = 25
place commercial_opportunity = 26

-- Every entry of `PREFIXES` has the width 6.
abbrev pub width : ℕ
width = 6

-- A row of `business_counters`.
pub record Counter : Type 0 where
  pub organization_id : ℕ
  pub entity_type : EntityType
  pub current_value : ℕ

abbrev pub Counters : Type 0
Counters = List Counter

unfoldable pub is_counter : ℕ → EntityType → Counter → Bool
unfolding place
is_counter org kind c = (c.organization_id == org) && (place c.entity_type == place kind)

-- The value on the row that the query locks; a missing row counts as 0.
unfoldable pub value : ℕ → EntityType → Counters → ℕ
value org kind [] = 0
value org kind (c ∷ rows) = if is_counter org kind c then c.current_value else value org kind rows

-- `counter.current_value += 1`, on the row found or on a new row that starts from 0.
unfoldable pub increment : ℕ → EntityType → Counters → Counters
increment org kind [] =
    record { organization_id = org; entity_type = kind; current_value = 0 + 1 } ∷ []
increment org kind (c ∷ rows) =
    if is_counter org kind c
    then record c { current_value = c.current_value + 1 } ∷ rows
    else c ∷ increment org kind rows

-- `f"{prefix}-{current_value:0{width}d}"`
unfoldable pub business_number : EntityType → ℕ → Text
unfolding prefix padded
business_number kind n = prefix kind ++ b'-' ∷ padded width n

unfoldable pub next_business_number : ℕ → EntityType → Counters → Text × Counters
unfolding value increment business_number
next_business_number org kind rows =
    let rows' = increment org kind rows in (business_number kind (value org kind rows'), rows')
