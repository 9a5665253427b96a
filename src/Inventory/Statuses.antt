-- ===== src/Inventory/Statuses.antt =====
-- The statuses of documents and the actions on them, as `action` of app/services/inventory.py reads
-- and writes them.
use cestos_oversight.Base.{
  ℕ, Option, none, some, List, [], ◌∷◌, Bool, true, false, ◌||◌, ◌==◌, String,
}
use cestos_oversight.Inventory.Model.{Kind, Status, Document, Line}
use cestos_oversight.Inventory.References.{Env}
use cestos_oversight.Inventory.PostLine.{PostAction}

pub data DocumentAction : Type 0 where
  cancel reject submit start restart approve : DocumentAction
  moving : PostAction → DocumentAction

status_code : Status → ℕ
status_code Status.draft = 0
status_code Status.submitted = 1
status_code Status.pending_approval = 2
status_code Status.approved = 3
status_code Status.in_progress = 4
status_code Status.posted = 5
status_code Status.in_transit = 6
status_code Status.received = 7
status_code Status.cancelled = 8
status_code Status.rejected = 9
status_code Status.partially_issued = 10
status_code Status.fulfilled = 11

unfoldable pub same_status : Status → Status → Bool
unfolding status_code
same_status a b = status_code a == status_code b

-- The status that an action leads to: a document that has it is left alone.
unfoldable pub terminal : DocumentAction → Option Status
terminal (moving PostAction.post) = some Status.posted
terminal (moving PostAction.dispatch) = some Status.in_transit
terminal (moving PostAction.receive) = some Status.received
terminal approve = some Status.approved
terminal cancel = some Status.cancelled
terminal submit = some Status.submitted
terminal start = some Status.in_progress
terminal reject = some Status.rejected
terminal restart = none

unfoldable pub is_done : Status → Option Status → Bool
unfolding same_status
is_done s none = false
is_done s (some t) = same_status s t

-- The statuses that a cancellation refuses.
unfoldable pub is_moved : Status → Bool
is_moved Status.posted = true
is_moved Status.in_transit = true
is_moved Status.received = true
is_moved Status.partially_issued = true
is_moved Status.fulfilled = true
is_moved _ = false

-- The statuses in which a document of the kind waits for approval.
unfoldable pub awaits_approval : Kind → Status → Bool
awaits_approval Kind.requests Status.submitted = true
awaits_approval Kind.requests Status.pending_approval = true
awaits_approval Kind.requests _ = false
awaits_approval Kind.stock_counts Status.submitted = true
awaits_approval Kind.stock_counts _ = false
awaits_approval _ Status.draft = true
awaits_approval _ Status.pending_approval = true
awaits_approval _ _ = false

-- The statuses in which the lines of a document may be posted by the action.
unfoldable pub may_post : Kind → PostAction → Status → Bool
may_post Kind.transfers PostAction.receive Status.in_transit = true
may_post Kind.transfers PostAction.receive _ = false
may_post Kind.adjustments PostAction.post s = same_status s Status.approved
may_post Kind.adjustments PostAction.dispatch s = same_status s Status.approved
may_post Kind.stock_counts PostAction.post s = same_status s Status.approved
may_post Kind.stock_counts PostAction.dispatch s = same_status s Status.approved
may_post Kind.transfers PostAction.post s = same_status s Status.approved
may_post Kind.transfers PostAction.dispatch s = same_status s Status.approved
may_post kind PostAction.receive s = false
may_post kind PostAction.post s = same_status s Status.draft || same_status s Status.approved
may_post kind PostAction.dispatch s = same_status s Status.draft || same_status s Status.approved

unfoldable pub posted_status : PostAction → Status
posted_status PostAction.dispatch = Status.in_transit
posted_status PostAction.receive = Status.received
posted_status PostAction.post = Status.posted

unfoldable pub refusal : Kind → PostAction → String
refusal Kind.transfers PostAction.receive = "Transfer is not in transit"
refusal kind PostAction.receive = "Transfer is not in transit"
refusal Kind.adjustments _ = "Approval is required before posting"
refusal Kind.stock_counts _ = "Approval is required before posting"
refusal Kind.transfers _ = "Approval is required before posting"
refusal _ _ = "Document cannot be posted in its current state"

unfoldable pub is_empty : List Line → Bool
is_empty [] = true
is_empty (_ ∷ _) = false

-- The document with the marks of its posting; a receipt of a transfer is marked as received too.
unfoldable pub mark_posted : Env → PostAction → Document → Document
unfolding posted_status
mark_posted env PostAction.receive d = record d {
  status = posted_status PostAction.receive;
  posted_by_id = some env.actor_id;
  posted_at = some env.now;
  received_by_id = some env.actor_id;
  received_at = some env.now;
}
mark_posted env a d = record d {
  status = posted_status a;
  posted_by_id = some env.actor_id;
  posted_at = some env.now;
}

-- The counter of `DOCUMENTS`, and the word of an action, which name the audit record.
unfoldable pub counter : Kind → String
counter Kind.receipts = "receipt"
counter Kind.issues = "issue"
counter Kind.returns = "return"
counter Kind.transfers = "transfer"
counter Kind.requests = "request"
counter Kind.adjustments = "adjustment"
counter Kind.stock_counts = "stock_count"

unfoldable pub done_word : DocumentAction → String
done_word (moving PostAction.post) = "posted"
done_word approve = "approved"
done_word (moving PostAction.dispatch) = "dispatched"
done_word (moving PostAction.receive) = "received"
done_word start = "started"
done_word restart = "restarted"
done_word submit = "submitted"
done_word cancel = "cancelled"
done_word reject = "rejected"

unfoldable pub is_request : Kind → Bool
is_request Kind.requests = true
is_request _ = false

unfoldable pub is_stock_count : Kind → Bool
is_stock_count Kind.stock_counts = true
is_stock_count _ = false
