-- ===== src/Inventory/Documents/Kinds.antt =====
-- A document stays of its kind while an action is performed on it (app/services/inventory.py).
use cestos_oversight.Base.{ℕ, ◌≡◌, refl, ◌∙◌, Option, none, some, List, [], ◌∷◌}
use cestos_oversight.Base.Int.{ℤ}
use cestos_oversight.Base.Decimal.{Decimal}
use cestos_oversight.Base.Action.{pure, ◌>>=◌}
use cestos_oversight.Base.Yields.{Yields, Yields-pure, Yields-after, yields_rules}
use cestos_oversight.Inventory.Model.{Item, Serial, Balance, Kind, Document, Line, Db}
use cestos_oversight.Inventory.References.{Env}
use cestos_oversight.Inventory.Posting.{Posting, Posted}
use cestos_oversight.Inventory.Receipts.{post_receipt}
use cestos_oversight.Inventory.Issues.{post_issue}
use cestos_oversight.Inventory.Returns.{post_return}
use cestos_oversight.Inventory.Transfers.{post_dispatch, post_arrival}
use cestos_oversight.Inventory.Adjustments.{post_adjustment, post_change, Change}
use cestos_oversight.Inventory.PostLine.{PostAction, post_kind, post_line, finish}
use cestos_oversight.Inventory.Documents.{perform}
use cestos_oversight.Inventory.DocumentLines.{Body, post_lines}
use cestos_oversight.Inventory.Statuses.{
  DocumentAction, moving, cancel, reject, submit, start, restart, approve, mark_posted,
}

abbrev pub IsKindOf : Document → Document → Type 0
IsKindOf doc d = d.kind ≡ doc.kind

abbrev IsPostedOf : Document → Posted → Type 0
IsPostedOf doc r = r.doc.kind ≡ doc.kind

abbrev IsMaybeOf : Document → Option Posted → Type 0
IsMaybeOf doc none = Unit
IsMaybeOf doc (some r) = r.doc.kind ≡ doc.kind

abbrev IsLineOf : Document → Document × Line → Type 0
IsLineOf doc r = r.0.kind ≡ doc.kind

abbrev IsLinesOf : Document → Document × List Line → Type 0
IsLinesOf doc r = r.0.kind ≡ doc.kind

ruleset kind_rules = (yields_rules, Yields-pure)

module _ (column_8 : Decimal → Decimal) (p : Posting) where
  receipt-kind : Yields (IsPostedOf p.doc) (post_receipt column_8 p)
  unfolding post_receipt
  receipt-kind = search kind_rules depth 12

  issue-kind : Yields (IsPostedOf p.doc) (post_issue column_8 p)
  unfolding post_issue
  issue-kind = search kind_rules depth 20

  return-kind : Yields (IsPostedOf p.doc) (post_return column_8 p)
  unfolding post_return
  return-kind = search kind_rules depth 30

  dispatch-kind : Yields (IsPostedOf p.doc) (post_dispatch column_8 p)
  unfolding post_dispatch
  dispatch-kind = search kind_rules depth 20

  arrival-kind : Yields (IsPostedOf p.doc) (post_arrival column_8 p)
  unfolding post_arrival
  arrival-kind = search kind_rules depth 24

  change-kind :
      (q : ℤ) (change : Change) → Yields (IsMaybeOf p.doc) (post_change column_8 p q change)
  unfolding post_change
  change-kind q change = search kind_rules depth 16

  adjustment-kind : Yields (IsMaybeOf p.doc) (post_adjustment column_8 p)
  unfolding post_adjustment
  adjustment-kind = search (kind_rules, change-kind) depth 20

  some-kind : (r : Posted) → IsPostedOf p.doc r → Yields {S = Db} (IsMaybeOf p.doc) (pure (some r))
  some-kind r h = Yields-pure (some r) h

  post_kind-kind :
      (kind : Kind) (a : PostAction) → Yields (IsMaybeOf p.doc) (post_kind column_8 kind a p)
  unfolding post_kind
  post_kind-kind Kind.receipts a =
      Yields-after (post_receipt column_8 p) (λ r. pure (some r)) receipt-kind some-kind
  post_kind-kind Kind.issues a =
      Yields-after (post_issue column_8 p) (λ r. pure (some r)) issue-kind some-kind
  post_kind-kind Kind.returns a =
      Yields-after (post_return column_8 p) (λ r. pure (some r)) return-kind some-kind
  post_kind-kind Kind.transfers PostAction.dispatch =
      Yields-after (post_dispatch column_8 p) (λ r. pure (some r)) dispatch-kind some-kind
  post_kind-kind Kind.transfers PostAction.receive =
      Yields-after (post_arrival column_8 p) (λ r. pure (some r)) arrival-kind some-kind
  post_kind-kind Kind.transfers PostAction.post = search kind_rules
  post_kind-kind Kind.adjustments a = adjustment-kind
  post_kind-kind Kind.stock_counts a = adjustment-kind
  post_kind-kind Kind.requests a = search kind_rules

module _ (column_8 : Decimal → Decimal) (env : Env) (kind : Kind) where
  finish-kind :
      (doc : Document) (line : Line) (r : Option Posted)
      → IsMaybeOf doc r
      → Yields (IsLineOf doc) (finish doc line r)
  unfolding finish
  finish-kind doc line none h = search kind_rules
  finish-kind doc line (some r) h = search kind_rules

  -- The posting of the line that has been followed, and its end.
  finished-kind :
      (a : PostAction) (doc : Document) (line : Line) (item : Item) (source : ℕ) (bin_id : Option ℕ)
      (balance : Balance) (cost : Decimal) (q : ℤ) (serial : Option Serial)
      → Yields (IsLineOf doc) (
          post_kind column_8 kind a (record {
            env = env;
            item = item;
            doc = doc;
            line = line;
            source = source;
            bin_id = bin_id;
            balance = balance;
            cost = cost;
            q = q;
            serial = serial;
          })
          >>= λ result. finish doc line result)
  finished-kind a doc line item source bin_id balance cost q serial =
      let p : Posting = record {
        env = env;
        item = item;
        doc = doc;
        line = line;
        source = source;
        bin_id = bin_id;
        balance = balance;
        cost = cost;
        q = q;
        serial = serial;
      } in
      Yields-after (post_kind column_8 kind a p) (λ result. finish doc line result)
        (post_kind-kind column_8 p kind a) (finish-kind doc line)

  post_line-kind :
      (a : PostAction) (doc : Document) (line : Line)
      → Yields (IsLineOf doc) (post_line column_8 env kind a doc line)
  unfolding post_line
  post_line-kind a doc line = search (kind_rules, finished-kind) depth 30

  post_lines-kind :
      (a : PostAction) (doc : Document) (lines : List Line)
      → Yields (IsLinesOf doc) (post_lines column_8 env kind a doc lines)
  unfolding post_lines
  post_lines-kind a doc [] = search kind_rules
  post_lines-kind a doc (line ∷ lines) =
      Yields-after (post_line column_8 env kind a doc line) _ (post_line-kind a doc line) (λ r same.
        Yields-after (post_lines column_8 env kind a r.0 lines) _ (post_lines-kind a r.0 lines)
          (λ rest same'. Yields-pure (rest.0, r.1 ∷ rest.1) (same' ∙ same)))

  marked_kind : (a : PostAction) (d : Document) → (mark_posted env a d).kind ≡ d.kind
  unfolding mark_posted
  marked_kind PostAction.post d = refl
  marked_kind PostAction.dispatch d = refl
  marked_kind PostAction.receive d = refl

  module _ (body : Body) where
    posted-kind :
        (a : PostAction) (doc : Document) (lines : List Line)
        → Yields (IsKindOf doc) (
            post_lines column_8 env kind a doc lines >>= λ posted.
            pure (mark_posted env a (record (posted.0) { lines = posted.1 })))
    posted-kind a doc lines =
        Yields-after (post_lines column_8 env kind a doc lines) _ (post_lines-kind a doc lines)
          (λ r same. Yields-pure _ (marked_kind a (record (r.0) { lines = r.1 }) ∙ same))

    pub perform-kind :
        (a : DocumentAction) (doc : Document)
        → Yields (IsKindOf doc) (perform column_8 env kind body a doc)
    unfolding perform
    perform-kind cancel doc = search kind_rules
    perform-kind reject doc = search kind_rules
    perform-kind submit doc = search kind_rules
    perform-kind start doc = search kind_rules
    perform-kind restart doc = search kind_rules
    perform-kind approve doc = search kind_rules
    perform-kind (moving a) doc = search (kind_rules, posted-kind) depth 12
