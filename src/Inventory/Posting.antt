-- ===== src/Inventory/Posting.antt =====
-- What the branches of `post_line` (app/services/inventory.py) share: the values computed before
-- them, and the writes to serial numbers.
use cestos_oversight.Base.{ℕ, Option, none, some, ◌==◌, update_first}
use cestos_oversight.Base.Int.{ℤ}
use cestos_oversight.Base.Decimal.{Decimal, scaled, ◌*ᵈ◌}
use cestos_oversight.Base.Action.{Action, pure, modify}
use cestos_oversight.Inventory.Model.{Item, Serial, Key, Balance, Document, Line, Transaction, Db}
use cestos_oversight.Inventory.References.{Env}

pub record Posting : Type 0 where
  pub env : Env
  pub item : Item
  pub doc : Document
  pub line : Line
  pub source : ℕ
  pub bin_id : Option ℕ
  pub balance : Balance
  pub cost : Decimal
  pub q : ℤ
  pub serial : Option Serial

-- The bucket of the line.
abbrev pub key_of : Posting → Key
key_of p = record {
  item_id = p.item.id;
  store_id = p.source;
  bin_id = p.bin_id;
  lot_id = p.line.lot_id;
}

-- What a branch hands on: the document, the cost, the quantity and the transaction.
pub record Posted : Type 0 where
  pub doc : Document
  pub cost : Decimal
  pub q : ℤ
  pub tx : Transaction

-- `q * cost` and `-q * cost`
abbrev pub worth : ℤ → Decimal → Decimal
worth q cost = scaled 4 q *ᵈ cost

-- The writes to the serial number of the line, where it has one.
unfoldable pub write_serial : Option Serial → (Serial → Serial) → Action Db (Unit {0})
write_serial none f = pure tt
write_serial (some serial) f =
    modify
      (λ db. record db { serials = update_first (λ (s : Serial). s.id == serial.id) f db.serials })
