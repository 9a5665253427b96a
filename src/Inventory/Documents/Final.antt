-- ===== src/Inventory/Documents/Final.antt =====
-- Statuses that a document never leaves (`action` of app/services/inventory.py).
use cestos_oversight.Base.{ℕ, ◌≡◌, refl, some, true, false, ◌||◌, Bool, arith, inl, inr, Bool-cases}
use cestos_oversight.Base.Decimal.{Decimal}
use cestos_oversight.Base.Action.{Action, Error, ok, raise_if, ◌>>=◌, ◌>>◌}
use cestos_oversight.Base.Never.{Never, Never-rest}
use cestos_oversight.Inventory.Model.{Kind, Status, Document, Db}
use cestos_oversight.Inventory.References.{Env, ref, document_row}
use cestos_oversight.Inventory.PostLine.{PostAction}
use cestos_oversight.Inventory.Documents.{perform, action}
use cestos_oversight.Inventory.DocumentLines.{Body}
use cestos_oversight.Inventory.Statuses.{
  DocumentAction, moving, cancel, reject, submit, start, restart, approve, is_done, terminal,
  same_status, is_moved, awaits_approval, may_post,
}

pub data IsFinal : Status → Type 0 where
  posted : IsFinal Status.posted
  cancelled : IsFinal Status.cancelled

is_draft-final : (s : Status) → IsFinal s → same_status s Status.draft ≡ false
unfolding same_status
is_draft-final _ IsFinal.posted = refl
is_draft-final _ IsFinal.cancelled = refl

is_approved-final : (s : Status) → IsFinal s → same_status s Status.approved ≡ false
unfolding same_status
is_approved-final _ IsFinal.posted = refl
is_approved-final _ IsFinal.cancelled = refl

is_in_progress-final : (s : Status) → IsFinal s → same_status s Status.in_progress ≡ false
unfolding same_status
is_in_progress-final _ IsFinal.posted = refl
is_in_progress-final _ IsFinal.cancelled = refl

is_over-final :
    (s : Status)
    → IsFinal s
    → (same_status s Status.posted || same_status s Status.cancelled) ≡ true
unfolding same_status
is_over-final _ IsFinal.posted = refl
is_over-final _ IsFinal.cancelled = refl

cancel-final : (s : Status) → IsFinal s → is_done s (terminal cancel) ≡ false → is_moved s ≡ true
unfolding is_done terminal is_moved same_status
cancel-final _ IsFinal.posted h = refl
cancel-final _ IsFinal.cancelled h = ground arith

awaits_approval-final : (kind : Kind) (s : Status) → IsFinal s → awaits_approval kind s ≡ false
unfolding awaits_approval
awaits_approval-final Kind.receipts _ IsFinal.posted = refl
awaits_approval-final Kind.receipts _ IsFinal.cancelled = refl
awaits_approval-final Kind.issues _ IsFinal.posted = refl
awaits_approval-final Kind.issues _ IsFinal.cancelled = refl
awaits_approval-final Kind.returns _ IsFinal.posted = refl
awaits_approval-final Kind.returns _ IsFinal.cancelled = refl
awaits_approval-final Kind.requests _ IsFinal.posted = refl
awaits_approval-final Kind.requests _ IsFinal.cancelled = refl
awaits_approval-final Kind.adjustments _ IsFinal.posted = refl
awaits_approval-final Kind.adjustments _ IsFinal.cancelled = refl
awaits_approval-final Kind.stock_counts _ IsFinal.posted = refl
awaits_approval-final Kind.stock_counts _ IsFinal.cancelled = refl
awaits_approval-final Kind.transfers _ IsFinal.posted = refl
awaits_approval-final Kind.transfers _ IsFinal.cancelled = refl

may_post-final : (kind : Kind) (a : PostAction) (s : Status) → IsFinal s → may_post kind a s ≡ false
unfolding may_post
may_post-final Kind.receipts PostAction.post s h = rw (is_draft-final s h, is_approved-final s h)
may_post-final Kind.receipts PostAction.dispatch s h =
    rw (is_draft-final s h, is_approved-final s h)
may_post-final Kind.receipts PostAction.receive s h = refl
may_post-final Kind.issues PostAction.post s h = rw (is_draft-final s h, is_approved-final s h)
may_post-final Kind.issues PostAction.dispatch s h = rw (is_draft-final s h, is_approved-final s h)
may_post-final Kind.issues PostAction.receive s h = refl
may_post-final Kind.returns PostAction.post s h = rw (is_draft-final s h, is_approved-final s h)
may_post-final Kind.returns PostAction.dispatch s h = rw (is_draft-final s h, is_approved-final s h)
may_post-final Kind.returns PostAction.receive s h = refl
may_post-final Kind.requests PostAction.post s h = rw (is_draft-final s h, is_approved-final s h)
may_post-final Kind.requests PostAction.dispatch s h =
    rw (is_draft-final s h, is_approved-final s h)
may_post-final Kind.requests PostAction.receive s h = refl
may_post-final Kind.adjustments PostAction.post s h = is_approved-final s h
may_post-final Kind.adjustments PostAction.dispatch s h = is_approved-final s h
may_post-final Kind.adjustments PostAction.receive s h = refl
may_post-final Kind.stock_counts PostAction.post s h = is_approved-final s h
may_post-final Kind.stock_counts PostAction.dispatch s h = is_approved-final s h
may_post-final Kind.stock_counts PostAction.receive s h = refl
may_post-final Kind.transfers PostAction.post s h = is_approved-final s h
may_post-final Kind.transfers PostAction.dispatch s h = is_approved-final s h
may_post-final Kind.transfers PostAction.receive _ IsFinal.posted = refl
may_post-final Kind.transfers PostAction.receive _ IsFinal.cancelled = refl

pub refused :
    {A : Type 0} (b : Bool) (e : Error) (k : Action Db A) → b ≡ true → Never (raise_if b e >> k)
unfolding ◌>>=◌
refused b e k h = record { at = λ s. rw h refl }

module _ (column_8 : Decimal → Decimal) (env : Env) (kind : Kind) (body : Body) where
  perform-final :
      (a : DocumentAction) (doc : Document)
      → IsFinal doc.status
      → is_done doc.status (terminal a) ≡ false
      → Never (perform column_8 env kind body a doc)
  unfolding perform
  perform-final cancel doc f h = refused _ _ _ (cancel-final doc.status f h)
  perform-final reject doc f h =
      refused _ _ _ (ground (arith, awaits_approval-final Kind.requests doc.status f))
  perform-final submit doc f h =
      refused _ _ _ (ground (arith, is_draft-final doc.status f, is_in_progress-final doc.status f))
  perform-final start doc f h = refused _ _ _ (ground (arith, is_over-final doc.status f))
  perform-final restart doc f h = refused _ _ _ (ground (arith, is_over-final doc.status f))
  perform-final approve doc f h =
      refused _ _ _ (ground (arith, awaits_approval-final kind doc.status f))
  perform-final (moving a) doc f h =
      Never-rest _ _ (λ _. refused _ _ _ (ground (arith, may_post-final kind a doc.status f)))

  -- Whatever action is called on a document that is posted or cancelled, of any kind, the call fails
  -- or leaves the database as it was.
  pub final_unchanged :
      (id : ℕ) (a : DocumentAction) (doc : Document) (db db' : Db)
      → document_row kind id db ≡ some doc
      → IsFinal doc.status
      → action column_8 env kind body id a db ≡ ok (tt, db')
      → db' ≡ db
  unfolding action ref ◌>>=◌
  final_unchanged id a doc db db' found f e = elim (Bool-cases (is_done doc.status (terminal a))) [
    | inl over ↦ ground arith
    | inr pending ↦ ground (arith, (perform-final a doc f pending).at db)
  ]
