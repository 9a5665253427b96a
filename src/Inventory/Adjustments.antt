-- ===== src/Inventory/Adjustments.antt =====
-- The `adjustments` and `stock-counts` branch of `post_line` (app/services/inventory.py).
use cestos_oversight.Base.{
  ℕ, Option, none, some, Bool, true, false, not, ◌&&◌, ◌||◌, ltb, if◌then◌else◌, same_id, get_or,
}
use cestos_oversight.Base.Int.{ℤ, ◌-ℤ◌, neg_ℤ, min_ℤ, abs_ℤ, ltb_ℤ, leb_ℤ, ◌=ℤ◌, zero_ℤ}
use cestos_oversight.Base.Decimal.{Decimal, scaled, ◌*ᵈ◌, ◌/ᵈ◌}
use cestos_oversight.Base.Action.{
  Action, validation, conflict, pure, raise, or_raise, raise_if, ◌>>=◌, ◌>>◌,
}
use cestos_oversight.Inventory.Model.{
  Purpose, Serial, SerialStatus, Kind, Movement, adjustment_of, Deltas, no_deltas, Db,
}
use cestos_oversight.Inventory.References.{ref, lot_row}
use cestos_oversight.Inventory.Ledger.{effect, transaction, of_document, of_line}
use cestos_oversight.Inventory.Tracking.{is_given, is_in_stock}
use cestos_oversight.Inventory.Posting.{Posting, Posted, key_of, worth, write_serial}

is_quarantined : SerialStatus → Bool
is_quarantined SerialStatus.quarantined = true
is_quarantined _ = false

unfoldable pub is_quarantine : Purpose → Bool
is_quarantine Purpose.quarantine = true
is_quarantine _ = false

unfoldable pub is_release : Purpose → Bool
is_release Purpose.release_from_quarantine = true
is_release _ = false

-- `purpose in {"WRITE_OFF", "DAMAGE"}`
unfoldable pub is_scrap : Purpose → Bool
is_scrap Purpose.write_off = true
is_scrap Purpose.damage = true
is_scrap _ = false

-- The purposes that an adjustment may have.
unfoldable pub is_adjustment : Purpose → Bool
is_adjustment Purpose.positive_adjustment = true
is_adjustment Purpose.negative_adjustment = true
is_adjustment Purpose.damage = true
is_adjustment Purpose.loss = true
is_adjustment Purpose.write_off = true
is_adjustment Purpose.quarantine = true
is_adjustment Purpose.release_from_quarantine = true
is_adjustment _ = false

is_positive : Purpose → Bool
is_positive Purpose.positive_adjustment = true
is_positive _ = false

-- The checks on the serial number of the line.
unfoldable pub check_adjusted_serial : Posting → Option Serial → Action Db (Unit {0})
unfolding is_quarantined is_quarantine is_release
check_adjusted_serial p none = pure tt
check_adjusted_serial p (some s) = do
  raise_if
      (not (same_id s.current_store_id (some p.source))
        || not (same_id s.current_bin_id p.bin_id)
        || not (is_in_stock s.status || is_quarantined s.status))
      (conflict "Serial is not held in this stock bucket")
  raise_if (is_release p.doc.purpose && not (is_quarantined s.status))
      (conflict "Selected serial is not quarantined")
  raise_if (is_quarantine p.doc.purpose && not (is_in_stock s.status))
      (conflict "Selected serial is not available for quarantine")

-- The signed change and its type: what a count found, or what the purpose says.
pub record Change : Type 0 where
  pub delta : ℤ
  pub kind : Movement

unfoldable pub counted_change : Posting → Action Db Change
counted_change p = do
  let changed = elim p.line.system_quantity as (λ _. Bool) [
    | none ↦ true
    | some was ↦ not (was =ℤ p.balance.quantity_on_hand)
  ]
  raise_if changed (conflict "Stock changed since count started; restart the count")
  counted ← or_raise p.line.counted_quantity (validation "Count quantity missing")
  pure (record {
    delta = counted -ℤ get_or p.line.system_quantity zero_ℤ;
    kind = Movement.stock_count_adjustment;
  })

unfoldable pub purposed_change : Posting → Action Db Change
unfolding is_adjustment is_positive
purposed_change p = do
  raise_if (not (is_adjustment p.doc.purpose)) (validation "Select a valid adjustment purpose")
  pure (record {
    delta = if is_positive p.doc.purpose then p.q else neg_ℤ p.q;
    kind = adjustment_of p.doc.purpose;
  })

-- The cost of what is added, where the line states one.
unfoldable pub added_cost : Posting → ℤ → Decimal
added_cost p delta = if leb_ℤ delta zero_ℤ then p.cost else elim p.line.unit_cost [
  | none ↦ p.cost
  | some unit ↦ unit *ᵈ scaled 4 p.line.quantity /ᵈ scaled 4 p.line.normalized_quantity
]

-- Stock of an expired lot stays in quarantine.
unfoldable pub check_expired : Posting → Option ℕ → Action Db (Unit {0})
check_expired p none = pure tt
check_expired p (some id) = do
  lot ← ref (lot_row id)
  raise_if (ltb (get_or lot.expiry_date p.env.today) p.env.today)
      (conflict "Expired stock cannot be released")

unfoldable pub check_release : Posting → Action Db (Unit {0})
unfolding is_release
check_release p = if is_release p.doc.purpose then check_expired p p.line.lot_id else pure tt

-- The effect of the purpose on the bucket.
unfoldable pub adjusted : Posting → ℤ → ℤ → Decimal → Deltas
unfolding is_quarantine is_release is_scrap
adjusted p delta q cost =
    if is_quarantine p.doc.purpose
    then record no_deltas { quantity_quarantined = q }
    else if is_release p.doc.purpose
    then record no_deltas { quantity_quarantined = neg_ℤ q }
    else record no_deltas {
      quantity_on_hand = delta;
      quantity_quarantined =
          if is_scrap p.doc.purpose then neg_ℤ (min_ℤ q p.balance.quantity_quarantined) else zero_ℤ;
      inventory_value = worth delta cost;
    }

unfoldable pub adjusted_serial : Posting → ℤ → Option Serial → Action Db (Unit {0})
unfolding is_quarantine is_release
adjusted_serial p delta none = pure tt
adjusted_serial p delta (some s) =
    if is_quarantine p.doc.purpose
    then write_serial (some s) (λ t. record t { status = SerialStatus.quarantined })
    else if is_release p.doc.purpose
    then write_serial (some s) (λ t. record t { status = SerialStatus.in_stock })
    else if ltb_ℤ delta zero_ℤ
    then write_serial (some s)
        (λ t. record t { status = SerialStatus.scrapped; current_store_id = none })
    else raise (validation "Receive or return serialized items instead of positive adjustments")

is_count : Kind → Bool
is_count Kind.stock_counts = true
is_count _ = false

-- A change is posted with its size as the quantity.
unfoldable pub post_change : (Decimal → Decimal) → Posting → ℤ → Change → Action Db (Option Posted)
post_change column_8 p q change = do
  let cost = added_cost p change.delta
  tx ← transaction column_8 p.env (of_document p.doc) (of_line p.line) change.kind cost q
  check_release p
  effect tx.id (key_of p) (adjusted p change.delta q cost)
  adjusted_serial p change.delta p.serial
  pure (some (record { doc = p.doc; cost = cost; q = q; tx = tx }))

-- A count that finds no difference posts nothing.
unfoldable pub post_adjustment : (Decimal → Decimal) → Posting → Action Db (Option Posted)
unfolding is_count
post_adjustment column_8 p = do
  check_adjusted_serial p p.serial
  raise_if (not (is_given p.doc.reason) && not (is_count p.doc.kind))
      (validation "Adjustment reason is required")
  if is_count p.doc.kind
      then (do
        change ← counted_change p
        if change.delta =ℤ zero_ℤ
            then pure none
            else post_change column_8 p (abs_ℤ change.delta) change)
      else (do change ← purposed_change p; post_change column_8 p p.q change)
