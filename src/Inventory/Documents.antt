-- ===== src/Inventory/Documents.antt =====
-- `InventoryService.action` (app/services/inventory.py): the life of a document.
pub mod Approved
pub mod Final
pub mod Kinds
pub mod Repeated
use cestos_oversight.Base.{
  ℕ, none, some, [], ◌∷◌, ◌++◌, true, false, not, ◌&&◌, ◌||◌, if◌then◌else◌, get_or,
}
use cestos_oversight.Base.Decimal.{Decimal}
use cestos_oversight.Base.Table.{put}
use cestos_oversight.Base.Action.{Action, validation, conflict, pure, modify, raise_if, ◌>>=◌, ◌>>◌}
use cestos_oversight.Inventory.Model.{Kind, Status, Document, Db}
use cestos_oversight.Inventory.References.{Env, Refs, ref, document_row, validate_refs, no_refs}
use cestos_oversight.Inventory.Ledger.{audit}
use cestos_oversight.Inventory.Tracking.{is_given}
use cestos_oversight.Inventory.Statuses.{
  DocumentAction, same_status, terminal, is_done, is_moved, awaits_approval, may_post, refusal,
  is_empty, mark_posted, counter, done_word, is_request, is_stock_count, cancel, reject, submit,
  start, restart, approve, moving,
}
use cestos_oversight.Inventory.DocumentLines.{
  Body, count_line, start_line, approve_line, each_line, lines_if, post_lines,
}

-- The references of a document's columns.
abbrev pub refs_of : Document → Refs
refs_of d = record no_refs {
  store_id = d.store_id;
  from_store_id = d.from_store_id;
  to_store_id = d.to_store_id;
  supplier_id = d.supplier_id;
  project_id = d.project_id;
  asset_id = d.asset_id;
  employee_id = d.employee_id;
  original_issue_id = d.original_issue_id;
  request_id = d.request_id;
  reservation_id = d.reservation_id;
  transaction_date = some d.transaction_date;
}

module _ (column_8 : Decimal → Decimal) (env : Env) (kind : Kind) (body : Body) where
  -- The branches of `action`; each returns the document as it leaves it.
  unfoldable pub perform : DocumentAction → Document → Action Db Document
  unfolding is_request is_stock_count is_moved awaits_approval
  perform cancel doc = do
    raise_if (is_moved doc.status) (conflict "Posted movements require a reversal or return")
    pure (record doc { status = Status.cancelled })
  perform reject doc = do
    raise_if (not (is_request kind && awaits_approval Kind.requests doc.status))
        (conflict "Request is not awaiting approval")
    pure (record doc { status = Status.rejected })
  perform submit doc = do
    raise_if
        (not (
          same_status doc.status
            (if is_stock_count kind then Status.in_progress else Status.draft)))
        (conflict "Document is not ready for submission")
    lines ← lines_if (is_stock_count kind) (count_line body) doc.lines
    pure (record doc { lines = lines; status = Status.submitted })
  perform start doc = do
    raise_if
        (not (is_stock_count kind)
          || same_status doc.status Status.posted
          || same_status doc.status Status.cancelled
          || not (same_status doc.status Status.draft))
        (conflict "Count cannot be started in its current state")
    lines ← each_line (start_line false doc) doc.lines
    pure (record doc {
      approved_by_id = none;
      approved_at = none;
      lines = lines;
      status = Status.in_progress;
    })
  perform restart doc = do
    raise_if
        (not (is_stock_count kind)
          || same_status doc.status Status.posted
          || same_status doc.status Status.cancelled)
        (conflict "Count cannot be started in its current state")
    raise_if (not (is_given body.reason)) (validation "Explain why the count is being restarted")
    lines ← each_line (start_line true doc) doc.lines
    pure (record doc {
      approved_by_id = none;
      approved_at = none;
      lines = lines;
      status = Status.in_progress;
    })
  perform approve doc = do
    raise_if (not (awaits_approval kind doc.status)) (conflict "Document is not awaiting approval")
    lines ← lines_if (is_request kind) (approve_line body) doc.lines
    pure (record doc {
      lines = lines;
      approved_by_id = some env.actor_id;
      approved_at = some env.now;
      status = Status.approved;
    })
  perform (moving a) doc = do
    raise_if (is_request kind) (validation "Create an issue from an approved request")
    raise_if (not (may_post kind a doc.status)) (conflict (refusal kind a))
    validate_refs env (refs_of doc)
    raise_if (is_empty doc.lines) (validation "Document has no lines")
    posted ← post_lines column_8 env kind a doc doc.lines
    pure (mark_posted env a (record (posted.0) { lines = posted.1 }))

  -- The notes with the reason, where one is given.
  pub noted : Document → Document
  noted doc =
      if is_given body.reason
      then record doc { notes = doc.notes ++ get_or body.reason "" ∷ [] }
      else doc

  -- `action`; a document that already has the action's status is returned as it is.
  unfoldable pub action : ℕ → DocumentAction → Action Db (Unit {0})
  unfolding is_done terminal noted counter done_word
  action id a = do
    doc ← ref (document_row kind id)
    if is_done doc.status (terminal a) then pure tt else (do
      after ← perform a doc
      modify (λ db. record db { documents = put id (noted after) db.documents })
      audit (counter kind ∷ done_word a ∷ []) id)
