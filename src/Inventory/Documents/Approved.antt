-- ===== src/Inventory/Documents/Approved.antt =====
-- The approval of what is posted (`action` of app/services/inventory.py).
use cestos_oversight.Base.{ℕ, ◌≡◌, refl, Bool, true, false, some, arith}
use cestos_oversight.Base.Decimal.{Decimal}
use cestos_oversight.Base.Action.{succeeds, ◌>>=◌}
use cestos_oversight.Base.Never.{Never, Never-rest}
use cestos_oversight.Inventory.Model.{Kind, Status, Document, Db}
use cestos_oversight.Inventory.References.{Env, ref, document_row}
use cestos_oversight.Inventory.PostLine.{PostAction}
use cestos_oversight.Inventory.Documents.{perform, action}
use cestos_oversight.Inventory.DocumentLines.{Body}
use cestos_oversight.Inventory.Statuses.{moving, is_done, terminal, same_status, may_post}
use cestos_oversight.Inventory.Documents.Final.{refused}

-- Adjustments and counts move stock only by approval, and transfers leave a store only so.
abbrev pub needs_approval : Kind → PostAction → Bool
needs_approval Kind.adjustments a = true
needs_approval Kind.stock_counts a = true
needs_approval Kind.transfers PostAction.post = true
needs_approval Kind.transfers PostAction.dispatch = true
needs_approval Kind.transfers PostAction.receive = false
needs_approval Kind.receipts a = false
needs_approval Kind.issues a = false
needs_approval Kind.returns a = false
needs_approval Kind.requests a = false

may_post-unapproved :
    (kind : Kind) (a : PostAction) (s : Status)
    → needs_approval kind a ≡ true
    → same_status s Status.approved ≡ false
    → may_post kind a s ≡ false
unfolding may_post
may_post-unapproved Kind.receipts a s n h = ground arith
may_post-unapproved Kind.issues a s n h = ground arith
may_post-unapproved Kind.returns a s n h = ground arith
may_post-unapproved Kind.requests a s n h = ground arith
may_post-unapproved Kind.adjustments PostAction.post s n h = h
may_post-unapproved Kind.adjustments PostAction.dispatch s n h = h
may_post-unapproved Kind.adjustments PostAction.receive s n h = refl
may_post-unapproved Kind.stock_counts PostAction.post s n h = h
may_post-unapproved Kind.stock_counts PostAction.dispatch s n h = h
may_post-unapproved Kind.stock_counts PostAction.receive s n h = refl
may_post-unapproved Kind.transfers PostAction.post s n h = h
may_post-unapproved Kind.transfers PostAction.dispatch s n h = h
may_post-unapproved Kind.transfers PostAction.receive s n h = ground arith

module _ (column_8 : Decimal → Decimal) (env : Env) (kind : Kind) (body : Body) where
  moving-unapproved :
      (a : PostAction) (doc : Document)
      → needs_approval kind a ≡ true
      → same_status doc.status Status.approved ≡ false
      → Never (perform column_8 env kind body (moving a) doc)
  unfolding perform
  moving-unapproved a doc n h =
      Never-rest _ _
        (λ _. refused _ _ _ (ground (arith, may_post-unapproved kind a doc.status n h)))

  -- Without approval no adjustment and no count is posted and no transfer leaves its store: the call
  -- on a document that is not approved fails, unless the document already has the status that the
  -- call leads to.
  pub unapproved_refused :
      (id : ℕ) (a : PostAction) (doc : Document) (db : Db)
      → document_row kind id db ≡ some doc
      → needs_approval kind a ≡ true
      → same_status doc.status Status.approved ≡ false
      → is_done doc.status (terminal (moving a)) ≡ false
      → succeeds (action column_8 env kind body id (moving a) db) ≡ false
  unfolding action ref ◌>>=◌
  unapproved_refused id a doc db found n h pending =
      ground (arith, (moving-unapproved a doc n h).at db)
