-- ===== src/Inventory/Examples.antt =====
-- Sample runs of documents and reservations, on a store with one bulk item.
mod Reversed
mod Requested
use mathlib.Core.Bool.{false≢true}
use cestos_oversight.Base.{
  ℕ, ◌≡◌, ◌≢◌, refl, ap, Option, none, some, [], ◌∷◌, Bool, true, false, ◌==◌, if◌then◌else◌,
}
use cestos_oversight.Base.Int.{pos, zero_ℤ, ◌-ℤ◌}
use cestos_oversight.Base.Decimal.{Decimal, scaled}
use cestos_oversight.Base.Table.{Table}
use cestos_oversight.Base.Action.{Result, ok, err, succeeds, ◌>>=◌}
use cestos_oversight.Base.Keeps.{After}
use cestos_oversight.Inventory.Model.{
  Item, Tracking, Document, Kind, Status, Purpose, Condition, Line, Db, Balance, Key, empty_balance,
  same_key, Reservation, ReservationStatus,
}
use cestos_oversight.Inventory.References.{Env, ref, document_row, same_kind}
use cestos_oversight.Inventory.Ledger.{balance_at, is_short}
use cestos_oversight.Inventory.Ledger.Projection.{
  Field, balance_field, IsCovered, IsConsistent, total, is_short-IsCovered,
}
use cestos_oversight.Inventory.PostLine.{PostAction}
use cestos_oversight.Inventory.Documents.{action}
use cestos_oversight.Inventory.DocumentLines.{Body}
use cestos_oversight.Inventory.Statuses.{DocumentAction, moving, is_done, same_status, terminal}
use cestos_oversight.Inventory.Documents.Repeated.{action_repeated}
use cestos_oversight.Inventory.Documents.Final.{IsFinal, final_unchanged}
use cestos_oversight.Inventory.Documents.Approved.{unapproved_refused}
use cestos_oversight.Inventory.Kept.Service.{action-IsConsistent}
use cestos_oversight.Inventory.Reservations.{ReservationCreate, reserve}
use cestos_oversight.Inventory.Reservations.Refused.{reserve_fails}

-- Only identifiers that are below the bound have a row.
abbrev pub one : {A : Type 0} → ℕ → A → Table A
one k a i = if i == k then some a else none

abbrev pub keep_places : Decimal → Decimal
keep_places d = d

abbrev pub env : Env
env = record { organization_id = 1; actor_id = 9; now = 1000000; today = 0 }

abbrev pub no_body : Body
no_body = record { reason = none; quantities = λ _. none }

abbrev pub cement : Item
cement = record {
  id = 5;
  base_unit_id = 6;
  standard_unit_cost = some (pos 25000);
  default_currency = "USD";
  tracking_method = Tracking.quantity_tracked;
  requires_expiry_tracking = false;
  requires_batch_tracking = false;
  requires_serial_tracking = false;
  requires_approval_to_issue = false;
  is_returnable = false;
  is_active = true;
}

-- 10 bags at 2.5
abbrev pub bags : Line
bags = record {
  id = 11;
  item_id = 5;
  unit_id = 6;
  quantity = pos 100000;
  normalized_quantity = pos 100000;
  bin_id = none;
  from_bin_id = none;
  to_bin_id = none;
  lot_id = none;
  serial_id = none;
  lot_number = none;
  serial_number = none;
  expiry_date = none;
  unit_cost = some (scaled 4 (pos 25000));
  total_cost = none;
  system_quantity = none;
  counted_quantity = none;
  quantity_approved = none;
  quantity_issued = pos 0;
}

abbrev pub receipt : Document
receipt = record {
  id = 10;
  kind = Kind.receipts;
  status = Status.draft;
  purpose = Purpose.purchase_receipt;
  condition = Condition.good;
  store_id = some 7;
  from_store_id = none;
  to_store_id = none;
  supplier_id = none;
  project_id = none;
  asset_id = none;
  employee_id = none;
  original_issue_id = none;
  request_id = none;
  reservation_id = none;
  approved_by_id = none;
  posted_by_id = none;
  received_by_id = none;
  reason = none;
  notes = [];
  transaction_date = 900000;
  approved_at = none;
  posted_at = none;
  received_at = none;
  expected_return_at = none;
  lines = bags ∷ [];
}

abbrev pub store_bucket : Key
store_bucket = record { item_id = 5; store_id = 7; bin_id = none; lot_id = none }

abbrev pub drafted : Db
drafted = record {
  items = one 5 cement;
  units = one 6 (record { precision = 0; is_active = true });
  conversions = [];
  stores = one 7 true;
  bins = λ _. none;
  suppliers = λ _. none;
  assets = λ _. none;
  employees = λ _. none;
  projects = λ _. none;
  lots = [];
  serials = [];
  documents = one 10 receipt;
  reservations = λ _. none;
  custody = [];
  transactions = [];
  balances = λ _. none;
  entries = [];
  counters = [];
  audit = [];
  next_id = 100;
}

-- The bucket of the store after a call, if it succeeds.
abbrev stock : {A : Type 0} → Result (A × Db) → Option Balance
stock (ok r) = r.1.balances store_bucket
stock (err _) = none

receipt_run :
    stock (action keep_places env Kind.receipts no_body 10 (moving PostAction.post) drafted)
    ≡ some
        (record empty_balance { quantity_on_hand = pos 100000; inventory_value = pos 2500000000 })
unfolding action ◌>>=◌ cestos_oversight.Inventory.References.ref
    cestos_oversight.Inventory.References.document_row
    cestos_oversight.Inventory.References.same_kind
    cestos_oversight.Inventory.References.validate_refs cestos_oversight.Inventory.Documents.perform
    cestos_oversight.Inventory.Statuses.may_post cestos_oversight.Inventory.Statuses.is_empty
    cestos_oversight.Inventory.DocumentLines.post_lines
    cestos_oversight.Inventory.Statuses.mark_posted cestos_oversight.Inventory.Statuses.is_done
    cestos_oversight.Inventory.PostLine.post_line cestos_oversight.Inventory.PostLine.average_cost
    cestos_oversight.Inventory.PostLine.line_serial
    cestos_oversight.Inventory.PostLine.check_location cestos_oversight.Inventory.PostLine.post_kind
    cestos_oversight.Inventory.PostLine.finish cestos_oversight.Inventory.Quantity.base_quantity
    cestos_oversight.Inventory.Receipts.post_receipt cestos_oversight.Inventory.Tracking.tracked
    cestos_oversight.Inventory.Tracking.received_lot
    cestos_oversight.Inventory.Tracking.received_serial
    cestos_oversight.Inventory.Tracking.check_lot cestos_oversight.Inventory.Tracking.check_serial
    cestos_oversight.Inventory.Ledger.bucket cestos_oversight.Inventory.Ledger.effect
    cestos_oversight.Inventory.Ledger.audit cestos_oversight.Inventory.Ledger.transaction
    cestos_oversight.Inventory.Posting.write_serial cestos_oversight.Inventory.Model.same_key
    cestos_oversight.Base.Decimal.◌=ᵈ◌ cestos_oversight.Base.Decimal.quantize
    cestos_oversight.Base.Decimal.◌*ᵈ◌ cestos_oversight.Base.Decimal.◌+ᵈ◌
    cestos_oversight.Base.Decimal.◌/ᵈ◌ cestos_oversight.Base.Int.◌-ℤ◌
receipt_run = refl

-- The database after a call, if it succeeds.
abbrev pub left_by : {A : Type 0} → Db → Result (A × Db) → Db
left_by db (ok r) = r.1
left_by db (err _) = db

abbrev pub received : Db
received =
    left_by drafted
      (action keep_places env Kind.receipts no_body 10 (moving PostAction.post) drafted)

pub receipt_succeeds :
    action keep_places env Kind.receipts no_body 10 (moving PostAction.post) drafted
    ≡ ok (tt, received)
unfolding action ◌>>=◌ cestos_oversight.Inventory.References.ref
    cestos_oversight.Inventory.References.document_row
    cestos_oversight.Inventory.References.same_kind
    cestos_oversight.Inventory.References.validate_refs cestos_oversight.Inventory.Documents.perform
    cestos_oversight.Inventory.Statuses.may_post cestos_oversight.Inventory.Statuses.is_empty
    cestos_oversight.Inventory.DocumentLines.post_lines
    cestos_oversight.Inventory.Statuses.mark_posted cestos_oversight.Inventory.Statuses.is_done
    cestos_oversight.Inventory.PostLine.post_line cestos_oversight.Inventory.PostLine.average_cost
    cestos_oversight.Inventory.PostLine.line_serial
    cestos_oversight.Inventory.PostLine.check_location cestos_oversight.Inventory.PostLine.post_kind
    cestos_oversight.Inventory.PostLine.finish cestos_oversight.Inventory.Quantity.base_quantity
    cestos_oversight.Inventory.Receipts.post_receipt cestos_oversight.Inventory.Tracking.tracked
    cestos_oversight.Inventory.Tracking.received_lot
    cestos_oversight.Inventory.Tracking.received_serial
    cestos_oversight.Inventory.Tracking.check_lot cestos_oversight.Inventory.Tracking.check_serial
    cestos_oversight.Inventory.Ledger.bucket cestos_oversight.Inventory.Ledger.effect
    cestos_oversight.Inventory.Ledger.audit cestos_oversight.Inventory.Ledger.transaction
    cestos_oversight.Inventory.Posting.write_serial cestos_oversight.Inventory.Model.same_key
    cestos_oversight.Base.Decimal.◌=ᵈ◌ cestos_oversight.Base.Decimal.quantize
    cestos_oversight.Base.Decimal.◌*ᵈ◌ cestos_oversight.Base.Decimal.◌+ᵈ◌
    cestos_oversight.Base.Decimal.◌/ᵈ◌ cestos_oversight.Base.Int.◌-ℤ◌
receipt_succeeds = refl

is_restart : DocumentAction → Bool
is_restart DocumentAction.restart = true
is_restart _ = false

post_is_no_restart : moving PostAction.post ≢ DocumentAction.restart
unfolding is_restart
post_is_no_restart e = false≢true (ap is_restart e)

action_repeated_example :
    action keep_places env Kind.receipts no_body 10 (moving PostAction.post) received
    ≡ ok (tt, received)
action_repeated_example =
    action_repeated keep_places keep_places env env Kind.receipts no_body no_body 10
      (moving PostAction.post) drafted received post_is_no_restart receipt_succeeds

empty-IsCovered : IsCovered empty_balance
unfolding is_short ◌-ℤ◌
empty-IsCovered = is_short-IsCovered empty_balance refl

empty_field : (f : Field) → balance_field f empty_balance ≡ zero_ℤ
empty_field Field.on_hand = refl
empty_field Field.reserved = refl
empty_field Field.quarantined = refl
empty_field Field.in_transit = refl

pub drafted-IsConsistent : IsConsistent drafted
unfolding balance_at total
drafted-IsConsistent = record { covered = λ k. empty-IsCovered; projected = λ f k. empty_field f }

action-IsConsistent_example :
    After IsConsistent
      (action keep_places env Kind.receipts no_body 10 (moving PostAction.post) drafted)
action-IsConsistent_example =
    action-IsConsistent keep_places env Kind.receipts no_body 10 (moving PostAction.post) drafted
      drafted-IsConsistent

abbrev two_bags : ReservationCreate
two_bags = record {
  item_id = 5;
  store_id = 7;
  bin_id = none;
  lot_id = none;
  serial_id = none;
  project_id = none;
  asset_id = none;
  quantity = pos 20000;
  expires_at = none;
}

abbrev held : Reservation
held = record {
  id = 20;
  item_id = 5;
  store_id = 7;
  bin_id = none;
  lot_id = none;
  serial_id = none;
  project_id = none;
  asset_id = none;
  quantity = pos 20000;
  fulfilled_quantity = pos 0;
  expires_at = none;
  status = ReservationStatus.active_reservation;
}

-- The store with its receipt posted, and a reservation on it.
abbrev stocked : Db
stocked = record drafted {
  documents = one 10 (record receipt { status = Status.posted });
  balances = λ k.
      if same_key k store_bucket
      then some
          (record empty_balance { quantity_on_hand = pos 100000; inventory_value = pos 2500000000 })
      else none;
  reservations = one 20 held;
}

reserve_fails_example : succeeds (reserve keep_places env two_bags stocked) ≡ false
reserve_fails_example = reserve_fails keep_places env two_bags stocked

abbrev posted_receipt : Document
posted_receipt = record receipt { status = Status.posted }

stocked_row : document_row Kind.receipts 10 stocked ≡ some posted_receipt
unfolding document_row same_kind
stocked_row = refl

post_again :
    action keep_places env Kind.receipts no_body 10 (moving PostAction.post) stocked
    ≡ ok (tt, stocked)
unfolding action ◌>>=◌ document_row same_kind is_done ref
post_again = refl

final_unchanged_example : stocked ≡ stocked
final_unchanged_example =
    final_unchanged keep_places env Kind.receipts no_body 10 (moving PostAction.post) posted_receipt
      stocked stocked stocked_row IsFinal.posted post_again

abbrev adjustment : Document
adjustment = record receipt { kind = Kind.adjustments; purpose = Purpose.loss }

abbrev adjusting : Db
adjusting = record stocked { documents = one 10 adjustment }

adjusting_row : document_row Kind.adjustments 10 adjusting ≡ some adjustment
unfolding document_row same_kind
adjusting_row = refl

unapproved_refused_example :
    succeeds (action keep_places env Kind.adjustments no_body 10 (moving PostAction.post) adjusting)
    ≡ false
unfolding same_status is_done terminal
unapproved_refused_example =
    unapproved_refused keep_places env Kind.adjustments no_body 10 PostAction.post adjustment
      adjusting adjusting_row refl refl refl
