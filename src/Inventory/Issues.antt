-- ===== src/Inventory/Issues.antt =====
-- The `issues` branch of `post_line` (app/services/inventory.py): approval, reservation, request,
-- the movement, the serial number and the custody of what must come back.
pub mod Within
use cestos_oversight.Base.{
  ℕ, Option, none, some, [], ◌∷◌, ◌++◌, Bool, true, false, not, ◌&&◌, ◌||◌, ◌==◌, leb,
  if◌then◌else◌, same_id, is_set, get_or, find, any, update_first,
}
use cestos_oversight.Base.Int.{ℤ, ◌+ℤ◌, ◌-ℤ◌, neg_ℤ, ltb_ℤ, ◌=ℤ◌, zero_ℤ}
use cestos_oversight.Base.Decimal.{Decimal, neg_ᵈ}
use cestos_oversight.Base.Table.{put}
use cestos_oversight.Base.Action.{
  Action, validation, conflict, pure, or_raise, modify, raise_if, ◌>>=◌, ◌>>◌,
}
use cestos_oversight.Inventory.Model.{
  SerialStatus, Document, Status, Kind, Line, Reservation, ReservationStatus, Movement, no_deltas,
  Db,
}
use cestos_oversight.Inventory.References.{ref, document_row}
use cestos_oversight.Inventory.Ledger.{effect, transaction, of_document, of_line}
use cestos_oversight.Inventory.Posting.{Posting, Posted, key_of, worth, write_serial}

unfoldable pub is_active_reservation : ReservationStatus → Bool
is_active_reservation ReservationStatus.active_reservation = true
is_active_reservation _ = false

-- The test that a reservation covers the line.
covers : Posting → Reservation → Bool
unfolding is_active_reservation
covers p r =
    is_active_reservation r.status
    && (r.item_id == p.item.id)
    && (r.store_id == p.source)
    && same_id r.bin_id p.bin_id
    && same_id r.lot_id p.line.lot_id
    && same_id r.serial_id p.line.serial_id
    && not (ltb_ℤ (r.quantity -ℤ r.fulfilled_quantity) p.q)

-- An id of the reservation that is given differs from the document's.
differs : Option ℕ → Option ℕ → Bool
differs given other = is_set given && not (same_id given other)

-- The reservation with the quantity fulfilled.
unfoldable pub fulfil : ℤ → Reservation → Reservation
fulfil q r =
    let now = r.fulfilled_quantity +ℤ q in
    record r {
      fulfilled_quantity = now;
      status = if now =ℤ r.quantity then ReservationStatus.fulfilled_reservation else r.status;
    }

unfoldable pub use_reservation : Posting → Option ℕ → Action Db (Unit {0})
unfolding covers differs fulfil
use_reservation p none = pure tt
use_reservation p (some id) = do
  r ← ref (λ db. db.reservations id)
  raise_if (not (covers p r)) (conflict "Reservation does not cover this issue")
  raise_if (is_set r.expires_at && leb (get_or r.expires_at 0) p.env.now)
      (conflict "Reservation has expired; release it first")
  raise_if (differs r.project_id p.doc.project_id || differs r.asset_id p.doc.asset_id)
      (validation "Reservation recipient does not match issue")
  modify (λ db. record db { reservations = put id (fulfil p.q r) db.reservations })

unfoldable pub is_issuable : Status → Bool
is_issuable Status.approved = true
is_issuable Status.partially_issued = true
is_issuable _ = false

-- `quantity_issued < quantity_approved`, which a missing approval does not satisfy.
is_outstanding : Line → Bool
is_outstanding l = elim l.quantity_approved [ none ↦ false | some a ↦ ltb_ℤ l.quantity_issued a ]

-- The request after an issue of its line for the item.
unfoldable pub issue_line : ℕ → ℤ → Document → Document
unfolding is_outstanding
issue_line item_id q request =
    let after =
      update_first (λ (l : Line). l.item_id == item_id)
        (λ (l : Line). record l { quantity_issued = l.quantity_issued +ℤ q }) request.lines in
    record request {
      lines = after;
      status = if any is_outstanding after then Status.partially_issued else Status.fulfilled;
    }

unfoldable pub use_request : Posting → Option ℕ → Action Db (Unit {0})
unfolding is_issuable issue_line
use_request p none = pure tt
use_request p (some id) = do
  request ← ref (document_row Kind.requests id)
  raise_if (not (is_issuable request.status)) (conflict "Request is not approved")
  raise_if
      (not (same_id request.project_id p.doc.project_id)
        || not (same_id request.asset_id p.doc.asset_id)
        || not (same_id request.employee_id p.doc.employee_id))
      (validation "Issue recipient must match the approved request")
  reqline ←
      or_raise (find (λ (l : Line). l.item_id == p.item.id) request.lines)
        (conflict "Issue exceeds approved request quantity")
  raise_if (ltb_ℤ (get_or reqline.quantity_approved zero_ℤ) (reqline.quantity_issued +ℤ p.q))
      (conflict "Issue exceeds approved request quantity")
  modify (λ db. record db { documents = put id (issue_line p.item.id p.q request) db.documents })

-- The custody row of a returnable item.
unfoldable pub take_custody : Posting → Action Db (Unit {0})
take_custody p =
    if p.item.is_returnable
    then modify (λ db. record db {
      custody =
          db.custody
          ++ record {
            item_id = p.item.id;
            serial_id = p.line.serial_id;
            issue_id = p.doc.id;
            quantity = p.q;
            returned_quantity = zero_ℤ;
            is_returned = false;
            returned_at = none;
            condition_at_return = none;
          }
            ∷ [];
    })
    else pure tt

unfoldable pub post_issue : (Decimal → Decimal) → Posting → Action Db Posted
post_issue column_8 p = do
  raise_if (p.item.requires_approval_to_issue && not (is_set p.doc.approved_by_id))
      (conflict "This item requires issue approval")
  use_reservation p p.doc.reservation_id
  use_request p p.doc.request_id
  tx ← transaction column_8 p.env (of_document p.doc) (of_line p.line) Movement.issue p.cost p.q
  effect tx.id (key_of p) (record no_deltas {
    quantity_on_hand = neg_ℤ p.q;
    quantity_reserved = if is_set p.doc.reservation_id then neg_ℤ p.q else zero_ℤ;
    inventory_value = neg_ᵈ (worth p.q p.cost);
  })
  write_serial p.serial (λ s. record s {
    status = SerialStatus.issued;
    current_store_id = none;
    current_bin_id = none;
    assigned_asset_id = p.doc.asset_id;
  })
  take_custody p
  pure (record { doc = p.doc; cost = p.cost; q = p.q; tx = tx })
