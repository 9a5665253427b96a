-- ===== src/Procurement/Approval.antt =====
-- The submission and the approval of an order (app/api/v1/endpoints/procurement.py and
-- `approve_purchase_order` of app/services/procurement.py).
use cestos_oversight.Base.{ℕ, some, Bool, true, false, not, ◌&&◌, same_id}
use cestos_oversight.Base.Action.{
  Action, value_error, not_found, conflict, forbidden, pure, raise_if, ◌>>=◌, ◌>>◌,
}
use cestos_oversight.Procurement.Model.{PoStatus, PurchaseOrder, Event, Db, Portal, Actor}
use cestos_oversight.Procurement.Lookup.{order, not_there, save, emit}

unfoldable pub is_draft : PoStatus → Bool
is_draft PoStatus.draft = true
is_draft _ = false

unfoldable pub is_waiting : PoStatus → Bool
is_waiting PoStatus.waiting_approval = true
is_waiting _ = false

unfoldable pub is_executive : Portal → Bool
is_executive Portal.executive = true
is_executive _ = false

unfoldable pub is_office : Portal → Bool
is_office Portal.finance = true
is_office Portal.executive = true
is_office Portal.other_portal = false

-- `submit_purchase_order`
unfoldable pub submit : Actor → ℕ → Action Db PurchaseOrder
unfolding order is_draft is_office save emit
submit actor id = do
  po ← order id (not_found "Purchase order not found")
  raise_if
      (not actor.is_superuser
        && not (is_office actor.portal)
        && not (same_id po.created_by_id (some actor.id)))
      (not_found "Purchase order not found")
  raise_if (not (is_draft po.status)) (conflict "Only a draft purchase order can be submitted")
  let after = record po { status = PoStatus.waiting_approval }
  save after
  emit (Event.threshold id)
  emit (Event.submitted_for_approval id)
  pure after

-- `approve_purchase_order`, the service
unfoldable pub approve_order : ℕ → ℕ → ℕ → Action Db PurchaseOrder
unfolding order is_waiting save
approve_order approver_id now id = do
  po ← order id not_there
  raise_if (not (is_waiting po.status))
      (value_error "Only purchase orders waiting for approval can be approved")
  let after = record po {
    status = PoStatus.approved;
    approved_by_id = some approver_id;
    approved_at = some now;
  }
  save after
  pure after

-- `approve_purchase_order`, the endpoint
unfoldable pub approve : Actor → ℕ → ℕ → Action Db PurchaseOrder
unfolding approve_order is_executive emit
approve actor now id = do
  raise_if (not actor.is_superuser && not (is_executive actor.portal))
      (forbidden "Only an executive can approve purchase orders")
  after ← approve_order actor.id now id
  emit (Event.approval id)
  pure after
