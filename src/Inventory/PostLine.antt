-- ===== src/Inventory/PostLine.antt =====
-- `post_line` (app/services/inventory.py): one line of a document is posted.
use cestos_oversight.Base.{
  ℕ, Option, none, some, [], ◌∷◌, Bool, true, false, not, ◌&&◌, ◌||◌, if◌then◌else◌, same_id,
  get_or,
}
use cestos_oversight.Base.Int.{◌=ℤ◌, zero_ℤ}
use cestos_oversight.Base.Decimal.{Decimal, scaled, ◌/ᵈ◌, quantize}
use cestos_oversight.Base.Action.{
  Action, validation, conflict, integrity, pure, raise, or_raise, raise_if, ◌>>=◌, ◌>>◌,
}
use cestos_oversight.Inventory.Model.{Item, Serial, Kind, Balance, Document, Line, Db}
use cestos_oversight.Inventory.References.{Env, ref, serial_row, validate_refs, no_refs}
use cestos_oversight.Inventory.Quantity.{base_quantity}
use cestos_oversight.Inventory.Ledger.{bucket, audit}
use cestos_oversight.Inventory.Tracking.{tracked}
use cestos_oversight.Inventory.Posting.{Posting, Posted, worth}
use cestos_oversight.Inventory.Receipts.{post_receipt}
use cestos_oversight.Inventory.Issues.{post_issue}
use cestos_oversight.Inventory.Returns.{post_return}
use cestos_oversight.Inventory.Transfers.{post_dispatch, post_arrival}
use cestos_oversight.Inventory.Adjustments.{post_adjustment}

-- The actions of a document that post its lines.
pub data PostAction : Type 0 where
  post dispatch receive : PostAction

unfoldable pub is_receive : PostAction → Bool
is_receive PostAction.receive = true
is_receive _ = false

is_transfer : Kind → Bool
is_transfer Kind.transfers = true
is_transfer _ = false

is_receipt : Kind → Bool
is_receipt Kind.receipts = true
is_receipt _ = false

-- The kinds that may move stock which is not available.
moves_unavailable : Kind → Bool
moves_unavailable Kind.returns = true
moves_unavailable Kind.adjustments = true
moves_unavailable Kind.stock_counts = true
moves_unavailable _ = false

-- The kinds that take a serial number out of its bucket.
takes_serial : Kind → Bool
takes_serial Kind.issues = true
takes_serial Kind.transfers = true
takes_serial _ = false

-- The average cost of the bucket, or the standard cost of an item that is not on hand.
unfoldable pub average_cost : Item → Balance → Decimal
average_cost item b =
    if b.quantity_on_hand =ℤ zero_ℤ
    then scaled 4 (get_or item.standard_unit_cost zero_ℤ)
    else scaled 8 b.inventory_value /ᵈ scaled 4 b.quantity_on_hand

unfoldable pub line_serial : Option ℕ → Action Db (Option Serial)
line_serial none = pure none
line_serial (some id) = do serial ← ref (serial_row id); pure (some serial)

-- A serial number leaves from the bucket that it stands in.
unfoldable pub check_location : ℕ → Option ℕ → Option Serial → Action Db (Unit {0})
check_location source bin_id none = pure tt
check_location source bin_id (some s) =
    raise_if
      (not (same_id s.current_store_id (some source)) || not (same_id s.current_bin_id bin_id))
      (conflict "Serial is in another stock location")

unfoldable pub post_kind :
    (Decimal → Decimal) → Kind → PostAction → Posting → Action Db (Option Posted)
post_kind column_8 Kind.receipts a p = do r ← post_receipt column_8 p; pure (some r)
post_kind column_8 Kind.issues a p = do r ← post_issue column_8 p; pure (some r)
post_kind column_8 Kind.returns a p = do r ← post_return column_8 p; pure (some r)
post_kind column_8 Kind.transfers PostAction.dispatch p = do
  r ← post_dispatch column_8 p
  pure (some r)
post_kind column_8 Kind.transfers PostAction.receive p = do
  r ← post_arrival column_8 p
  pure (some r)
post_kind column_8 Kind.transfers PostAction.post p =
    raise (validation "Use dispatch and receive for transfers")
post_kind column_8 Kind.adjustments a p = post_adjustment column_8 p
post_kind column_8 Kind.stock_counts a p = post_adjustment column_8 p
post_kind column_8 Kind.requests a p = pure none

-- The line with its cost, after the audit of the movement; the cost is the one that the session
-- holds, which its column rounds to four places when the row is written. A count without a difference leaves
-- the document and the line as they are.
unfoldable pub finish : Document → Line → Option Posted → Action Db (Document × Line)
finish doc line none = pure (doc, line)
finish doc line (some r) = do
  audit ("movement_posted" ∷ []) r.tx.id
  pure (
    r.doc,
    record line { unit_cost = some r.cost; total_cost = some (quantize 4 (worth r.q r.cost)) },
  )

unfoldable pub post_line :
    (Decimal → Decimal) → Env → Kind → PostAction → Document → Line → Action Db (Document × Line)
unfolding is_transfer is_receipt moves_unavailable takes_serial
post_line column_8 env kind action doc line = do
  item ← ref (λ db. db.items line.item_id)
  raise_if (not item.is_active) (conflict "Item is archived")
  converted ← base_quantity item line.unit_id (scaled 4 line.quantity)
  raise_if (not (converted =ℤ line.normalized_quantity))
      (conflict "Unit conversion changed; revise the draft before posting")
  let source = if is_transfer kind then doc.from_store_id else doc.store_id
  let bin_id = if is_transfer kind then line.from_bin_id else line.bin_id
  validate_refs env (record no_refs {
    item_id = some item.id;
    store_id = source;
    bin_id = bin_id;
    lot_id = line.lot_id;
    serial_id = line.serial_id;
  })
  followed ←
      tracked env item line doc (is_receipt kind) (moves_unavailable kind || is_receive action)
  store ← or_raise source integrity
  balance ←
      bucket
        (record { item_id = item.id; store_id = store; bin_id = bin_id; lot_id = followed.lot_id })
  serial ← line_serial followed.serial_id
  if takes_serial kind && not (is_receive action)
      then check_location store bin_id serial
      else pure tt
  result ← post_kind column_8 kind action (record {
    env = env;
    item = item;
    doc = doc;
    line = followed;
    source = store;
    bin_id = bin_id;
    balance = balance;
    cost = average_cost item balance;
    q = line.normalized_quantity;
    serial = serial;
  })
  finish doc followed result
