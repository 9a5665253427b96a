-- ===== src/Procurement/Goods.antt =====
-- `receive_goods` (app/services/procurement.py).
use cestos_oversight.Base.{
  ℕ, none, some, List, [], ◌∷◌, Bool, true, false, not, ◌&&◌, ◌||◌, if◌then◌else◌,
}
use cestos_oversight.Base.Int.{ℤ, ltb_ℤ, leb_ℤ, zero_ℤ}
use cestos_oversight.Base.Decimal.{Decimal, scaled, ◌+ᵈ◌, ◌≤ᵈ◌}
use cestos_oversight.Base.Table.{Table}
use cestos_oversight.Base.Action.{Action, value_error, pure, raise_if, ◌>>=◌, ◌>>◌}
use cestos_oversight.Procurement.Model.{PoStatus, PurchaseOrderItem, PurchaseOrder, Event, Db}
use cestos_oversight.Procurement.Lookup.{order, not_there, save, emit}

unfoldable pub is_unapproved : PoStatus → Bool
is_unapproved PoStatus.draft = true
is_unapproved PoStatus.waiting_approval = true
is_unapproved _ = false

unfoldable pub is_over : PoStatus → Bool
is_over PoStatus.received = true
is_over PoStatus.closed = true
is_over PoStatus.cancelled = true
is_over _ = false

-- The variables of the loop.
pub record Receiving : Type 0 where
  pub all_fully_received : Bool
  pub any_received : Bool
  pub received_now : Decimal

-- The quantity that an item has received after the request, before it is stored.
unfoldable pub receive_item : Table Decimal → PurchaseOrderItem → Action Db Decimal
receive_item receipts item = elim (receipts item.id) [
  | none ↦ pure (scaled 2 item.quantity_received)
  | some q ↦ do
    let now = scaled 2 item.quantity_received +ᵈ q
    raise_if (ltb_ℤ q.coefficient zero_ℤ || not (now ≤ᵈ scaled 2 item.quantity_ordered))
        (value_error "Receipt quantity exceeds the outstanding quantity")
    pure now
]

-- What the request adds to the sum of what is received now.
unfoldable pub add_received : Table Decimal → PurchaseOrderItem → Decimal → Decimal
add_received receipts item total = elim (receipts item.id) [
  | none ↦ total
  | some q ↦ if leb_ℤ q.coefficient zero_ℤ then total else total +ᵈ q
]

-- The status that the loop leads to.
unfoldable pub received_status : Receiving → PoStatus → PoStatus
received_status r s =
    if r.all_fully_received
    then PoStatus.received
    else if r.any_received
    then PoStatus.partially_received
    else s

module _ (column_2 : Decimal → ℤ) where
  -- The loop over the items.
  unfoldable pub receive_items :
      Table Decimal
      → List PurchaseOrderItem
      → Receiving
      → Action Db (List PurchaseOrderItem × Receiving)
  unfolding receive_item add_received
  receive_items receipts [] r = pure ([], r)
  receive_items receipts (item ∷ items) r = do
    now ← receive_item receipts item
    rest ← receive_items receipts items (record {
      all_fully_received = r.all_fully_received && scaled 2 item.quantity_ordered ≤ᵈ now;
      any_received = r.any_received || not (leb_ℤ now.coefficient zero_ℤ);
      received_now = add_received receipts item r.received_now;
    })
    pure (record item { quantity_received = column_2 now } ∷ rest.0, rest.1)

  -- `receive_goods`
  unfoldable pub receive_goods : ℕ → Table Decimal → Action Db PurchaseOrder
  unfolding order is_unapproved is_over received_status save emit
  receive_goods id receipts = do
    po ← order id not_there
    raise_if (is_unapproved po.status)
        (value_error "The purchase order must be approved before goods can be received")
    raise_if (is_over po.status) (value_error "This purchase order is no longer accepting goods")
    done ←
        receive_items receipts po.items (record {
          all_fully_received = true;
          any_received = false;
          received_now = scaled 0 zero_ℤ;
        })
    let after = record po { items = done.0; status = received_status done.1 po.status }
    save after
    if leb_ℤ done.1.received_now.coefficient zero_ℤ then pure tt else emit (Event.goods_received id)
    pure after
