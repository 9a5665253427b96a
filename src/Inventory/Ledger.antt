-- ===== src/Inventory/Ledger.antt =====
-- Buckets, transactions and effects (`bucket`, `transaction`, `effect` and `audit` of
-- app/services/inventory.py). The columns `Numeric(18, 8)` round as PostgreSQL does; that rounding
-- is the parameter `column_8`.
pub mod Projection
pub mod Kept
use cestos_oversight.Base.{
  ℕ, suc, ◌+◌, Option, none, some, List, [], ◌∷◌, ◌++◌, Bool, true, false, ◌&&◌, ◌||◌, ◌==◌, String,
  if◌then◌else◌, get_or, any,
}
use cestos_oversight.Base.Int.{ℤ, ◌+ℤ◌, ◌-ℤ◌, leb_ℤ, ltb_ℤ, zero_ℤ}
use cestos_oversight.Base.Decimal.{Decimal, scaled, ◌+ᵈ◌, ◌*ᵈ◌, quantize}
use cestos_oversight.Base.Action.{
  Action, conflict, integrity, attribute_error, pure, gets, or_raise, modify, raise_if, ◌>>=◌, ◌>>◌,
}
use cestos_oversight.Counters.{EntityType, increment, value}
use cestos_oversight.Inventory.Model.{
  Key, same_key, Balance, empty_balance, Deltas, Movement, receipt_of, return_from_employee,
  Purpose, PostingKey, posting, reversing, Transaction, Document, Line, Reservation, Db,
}
use cestos_oversight.Inventory.References.{Env, ref}

-- The row of a bucket, or the zero row that a first use creates.
unfoldable pub balance_at : (Key → Option Balance) → Key → Balance
balance_at balances key = get_or (balances key) empty_balance

unfoldable pub put_balance : Key → Balance → (Key → Option Balance) → Key → Option Balance
put_balance key b balances k = if same_key k key then some b else balances k

-- `bucket`: the row is created on its first use.
unfoldable pub bucket : Key → Action Db Balance
unfolding balance_at put_balance
bucket key = do
  b ← gets (λ db. balance_at db.balances key)
  modify (λ db. record db { balances = put_balance key b db.balances })
  pure b

-- The columns after an effect; quantities are counts of `SCALE`, so `quantize` leaves them.
unfoldable pub add_deltas : Balance → Deltas → Balance
add_deltas b d = record {
  quantity_on_hand = b.quantity_on_hand +ℤ d.quantity_on_hand;
  quantity_reserved = b.quantity_reserved +ℤ d.quantity_reserved;
  quantity_quarantined = b.quantity_quarantined +ℤ d.quantity_quarantined;
  quantity_in_transit = b.quantity_in_transit +ℤ d.quantity_in_transit;
  inventory_value = quantize 8 (scaled 8 b.inventory_value +ᵈ d.inventory_value);
  transit_value = quantize 8 (scaled 8 b.transit_value +ᵈ d.transit_value);
}

-- The `min(...) < 0` of `effect`.
unfoldable pub is_short : Balance → Bool
is_short b =
    ltb_ℤ b.quantity_on_hand zero_ℤ
    || ltb_ℤ b.quantity_reserved zero_ℤ
    || ltb_ℤ b.quantity_quarantined zero_ℤ
    || ltb_ℤ b.quantity_in_transit zero_ℤ
    || ltb_ℤ (b.quantity_on_hand -ℤ b.quantity_reserved -ℤ b.quantity_quarantined) zero_ℤ

-- `effect` on the row of a bucket.
unfoldable pub effect : ℕ → Key → Deltas → Action Db (Unit {0})
unfolding balance_at put_balance add_deltas is_short
effect transaction_id key deltas = do
  b ← gets (λ db. balance_at db.balances key)
  raise_if (is_short (add_deltas b deltas))
      (conflict "Insufficient available stock in the selected store/bin/lot")
  modify (λ db. record db {
    balances = put_balance key (add_deltas b deltas) db.balances;
    entries =
        db.entries ++ record { transaction_id = transaction_id; key = key; deltas = deltas } ∷ [];
  })

-- `audit`
unfoldable pub audit : List String → ℕ → Action Db (Unit {0})
audit action entity_id =
    modify (λ db. record db {
      audit = db.audit ++ record { action = action; entity_id = entity_id } ∷ [];
    })

-- What `transaction` reads of the document or reservation that moves stock. A row without the
-- attribute `transaction_date` has none.
pub record Origin : Type 0 where
  pub id : ℕ
  pub store_id : Option ℕ
  pub from_store_id : Option ℕ
  pub to_store_id : Option ℕ
  pub transaction_date : Option ℕ

-- What it reads of the line.
pub record Moved : Type 0 where
  pub id : ℕ
  pub item_id : ℕ
  pub bin_id : Option ℕ
  pub from_bin_id : Option ℕ
  pub to_bin_id : Option ℕ
  pub lot_id : Option ℕ
  pub serial_id : Option ℕ

abbrev pub of_document : Document → Origin
of_document d = record {
  id = d.id;
  store_id = d.store_id;
  from_store_id = d.from_store_id;
  to_store_id = d.to_store_id;
  transaction_date = some d.transaction_date;
}

abbrev pub of_line : Line → Moved
of_line l = record {
  id = l.id;
  item_id = l.item_id;
  bin_id = l.bin_id;
  from_bin_id = l.from_bin_id;
  to_bin_id = l.to_bin_id;
  lot_id = l.lot_id;
  serial_id = l.serial_id;
}

-- `InventoryReservation` has no `transaction_date`, and no stores but its own.
abbrev pub of_reservation : Reservation → Origin
of_reservation r = record {
  id = r.id;
  store_id = some r.store_id;
  from_store_id = none;
  to_store_id = none;
  transaction_date = none;
}

abbrev pub moved_by_reservation : Reservation → Moved
moved_by_reservation r = record {
  id = r.id;
  item_id = r.item_id;
  bin_id = r.bin_id;
  from_bin_id = none;
  to_bin_id = none;
  lot_id = r.lot_id;
  serial_id = r.serial_id;
}

-- The types whose store is the receiving one.
unfoldable pub is_inward : Movement → Bool
is_inward (receipt_of _) = true
is_inward return_from_employee = true
is_inward _ = false

-- `x or y` on optional ids
abbrev pub or_else : Option ℕ → Option ℕ → Option ℕ
or_else none y = y
or_else (some x) y = some x

unfoldable pub purpose_code : Purpose → ℕ
purpose_code Purpose.opening_balance = 0
purpose_code Purpose.purchase_receipt = 1
purpose_code Purpose.other_receipt = 2
purpose_code Purpose.positive_adjustment = 3
purpose_code Purpose.negative_adjustment = 4
purpose_code Purpose.damage = 5
purpose_code Purpose.loss = 6
purpose_code Purpose.write_off = 7
purpose_code Purpose.quarantine = 8
purpose_code Purpose.release_from_quarantine = 9
purpose_code Purpose.other_purpose = 10

-- A number for each type, by which types are compared.
unfoldable pub movement_code : Movement → ℕ
unfolding purpose_code
movement_code (Movement.receipt_of p) = 20 + purpose_code p
movement_code (Movement.adjustment_of p) = 40 + purpose_code p
movement_code Movement.issue = 0
movement_code Movement.return_from_employee = 1
movement_code Movement.transfer_out = 2
movement_code Movement.transfer_in = 3
movement_code Movement.stock_count_adjustment = 4
movement_code Movement.reservation = 5
movement_code Movement.reservation_release = 6
movement_code Movement.reversal = 7

unfoldable pub same_posting : PostingKey → PostingKey → Bool
unfolding movement_code
same_posting (posting d l m) (posting d' l' m') =
    (d == d') && (l == l') && (movement_code m == movement_code m')
same_posting (reversing t) (reversing t') = t == t'
same_posting _ _ = false

-- The constraints of `inventory_transactions` on a new row.
unfoldable pub is_refused : Transaction → List Transaction → Bool
unfolding same_posting
is_refused t ts =
    leb_ℤ t.normalized_quantity zero_ℤ || any (λ u. same_posting u.posting_key t.posting_key) ts

-- `session.add(row)` and `flush`, which draws the row's identifier.
unfoldable pub add_transaction : Transaction → Action Db Transaction
unfolding is_refused
add_transaction t = do
  ts ← gets (λ db. db.transactions)
  raise_if (is_refused t ts) integrity
  modify (λ db. record db { transactions = db.transactions ++ t ∷ [] })
  pure t

-- A fresh identifier, as `uuid4` draws one.
unfoldable pub new_id : Action Db ℕ
new_id = do
  id ← gets (λ db. db.next_id)
  modify (λ db. record db { next_id = suc db.next_id })
  pure id

-- `next_business_number` for a transaction; the number is the counter's value.
unfoldable pub next_transaction_number : Env → Action Db ℕ
unfolding increment value
next_transaction_number env = do
  modify (λ db. record db {
    counters = increment env.organization_id EntityType.inventory_transaction db.counters;
  })
  gets (λ db. value env.organization_id EntityType.inventory_transaction db.counters)

module _ (column_8 : Decimal → Decimal) where
  -- `transaction`
  unfoldable pub transaction : Env → Origin → Moved → Movement → Decimal → ℤ → Action Db Transaction
  unfolding next_transaction_number new_id is_inward add_transaction
  transaction env doc line kind cost q = do
    ref (λ db. db.items line.item_id)
    number ← next_transaction_number env
    or_raise doc.transaction_date (attribute_error "transaction_date")
    id ← new_id
    add_transaction (record {
      id = id;
      transaction_number = number;
      posting_key = posting doc.id line.id kind;
      transaction_type = kind;
      item_id = line.item_id;
      normalized_quantity = q;
      from_store_id = or_else doc.from_store_id (if is_inward kind then none else doc.store_id);
      to_store_id = or_else doc.to_store_id (if is_inward kind then doc.store_id else none);
      from_bin_id = or_else line.from_bin_id line.bin_id;
      to_bin_id = or_else line.to_bin_id line.bin_id;
      lot_id = line.lot_id;
      serial_id = line.serial_id;
      reference_id = doc.id;
      unit_cost = column_8 cost;
      total_cost = quantize 4 (scaled 4 q *ᵈ cost);
      reversal_of_id = none;
      created_at = env.now;
    })
