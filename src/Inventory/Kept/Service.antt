-- ===== src/Inventory/Kept/Service.antt =====
-- The actions of a document and the calls on reservations keep every balance a covered projection
-- of the ledger (app/services/inventory.py).
use cestos_oversight.Base.{ℕ, Option, none, some, List, [], ◌∷◌, Bool, true, false}
use cestos_oversight.Base.Int.{ℤ}
use cestos_oversight.Base.Decimal.{Decimal}
use cestos_oversight.Base.Action.{pure, ◌>>=◌, Action}
use cestos_oversight.Base.Keeps.{Keeps-bind, Keeps-pure, Keeps, After}
use cestos_oversight.Inventory.Model.{Kind, Document, Line, Db}
use cestos_oversight.Inventory.References.{Env}
use cestos_oversight.Inventory.PostLine.{PostAction}
use cestos_oversight.Inventory.Documents.{perform, action}
use cestos_oversight.Inventory.DocumentLines.{
  Body, each_line, lines_if, post_lines, count_line, check_count, start_line, approve_line,
}
use cestos_oversight.Inventory.Statuses.{
  DocumentAction, moving, cancel, reject, submit, start, restart, approve,
}
use cestos_oversight.Inventory.Ledger.Projection.{IsConsistent}
use cestos_oversight.Inventory.Kept.Branches.{posting_rules}
use cestos_oversight.Inventory.Kept.Lines.{post_line-Keeps}

each_line-Keeps :
    (f : Line → Action Db Line) (lines : List Line)
    → ((line : Line) → Keeps IsConsistent (f line))
    → Keeps IsConsistent (each_line f lines)
unfolding each_line
each_line-Keeps f [] h = search posting_rules
each_line-Keeps f (line ∷ lines) h =
    Keeps-bind (f line) (λ first. each_line f lines >>= λ rest. pure (first ∷ rest)) (h line)
      (λ first.
        Keeps-bind (each_line f lines) (λ rest. pure (first ∷ rest)) (each_line-Keeps f lines h)
          (λ rest. Keeps-pure (first ∷ rest)))

lines_if-Keeps :
    (b : Bool) (f : Line → Action Db Line) (lines : List Line)
    → ((line : Line) → Keeps IsConsistent (f line))
    → Keeps IsConsistent (lines_if b f lines)
unfolding lines_if
lines_if-Keeps true f lines h = each_line-Keeps f lines h
lines_if-Keeps false f lines h = Keeps-pure lines

check_count-Keeps :
    (line : Line) (v : Option Decimal) (o : Option ℤ) → Keeps IsConsistent (check_count line v o)
unfolding check_count
check_count-Keeps line none none = search posting_rules
check_count-Keeps line none (some o) = search posting_rules
check_count-Keeps line (some v) o = search posting_rules

count_line-Keeps : (body : Body) (line : Line) → Keeps IsConsistent (count_line body line)
unfolding count_line
count_line-Keeps body line = check_count-Keeps line (body.quantities line.id) line.counted_quantity

start_line-Keeps :
    (again : Bool) (doc : Document) (line : Line) → Keeps IsConsistent (start_line again doc line)
unfolding start_line
start_line-Keeps again doc line = search posting_rules

approve_line-Keeps : (body : Body) (line : Line) → Keeps IsConsistent (approve_line body line)
unfolding approve_line
approve_line-Keeps body line = search posting_rules depth 8

post_lines-Keeps :
    (column_8 : Decimal → Decimal) (env : Env) (kind : Kind) (a : PostAction) (doc : Document)
    (lines : List Line)
    → Keeps IsConsistent (post_lines column_8 env kind a doc lines)
unfolding post_lines
post_lines-Keeps column_8 env kind a doc [] = search posting_rules
post_lines-Keeps column_8 env kind a doc (line ∷ lines) =
    search (
      posting_rules,
      post_line-Keeps,
      λ (d : Document). post_lines-Keeps column_8 env kind a d lines,
    )

module _ (column_8 : Decimal → Decimal) (env : Env) (kind : Kind) (body : Body) where
  perform-Keeps :
      (a : DocumentAction) (doc : Document)
      → Keeps IsConsistent (perform column_8 env kind body a doc)
  unfolding perform
  perform-Keeps cancel doc = search posting_rules
  perform-Keeps reject doc = search posting_rules
  perform-Keeps submit doc = search (
    posting_rules,
    λ (b : Bool). lines_if-Keeps b (count_line body) doc.lines (count_line-Keeps body),
  )
  perform-Keeps start doc = search (
    posting_rules,
    λ (ls : List Line). each_line-Keeps (start_line false doc) ls (start_line-Keeps false doc),
  )
  perform-Keeps restart doc = search (
    posting_rules,
    λ (ls : List Line). each_line-Keeps (start_line true doc) ls (start_line-Keeps true doc),
  )
  perform-Keeps approve doc = search (
    posting_rules,
    λ (b : Bool). lines_if-Keeps b (approve_line body) doc.lines (approve_line-Keeps body),
  )
  perform-Keeps (moving a) doc = search (posting_rules, post_lines-Keeps) depth 10

  action-Keeps :
      (id : ℕ) (a : DocumentAction) → Keeps IsConsistent (action column_8 env kind body id a)
  unfolding action
  action-Keeps id a = search (posting_rules, perform-Keeps) depth 8

  -- From a database in which every balance is covered and each of its quantities is the sum of its
  -- ledger entries, each
  -- action on a document of each kind fails, or leaves such a database.
  pub action-IsConsistent :
      (id : ℕ) (a : DocumentAction) (db : Db)
      → IsConsistent db
      → After IsConsistent (action column_8 env kind body id a db)
  action-IsConsistent id a db h = (action-Keeps id a).at db h
