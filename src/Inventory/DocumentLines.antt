-- ===== src/Inventory/DocumentLines.antt =====
-- The loops over the lines of a document in `action` (app/services/inventory.py).
use cestos_oversight.Base.{
  Option, none, some, List, [], ◌∷◌, Bool, true, false, not, ◌||◌, String, if◌then◌else◌, get_or,
}
use cestos_oversight.Base.Int.{ℤ, ltb_ℤ, leb_ℤ, zero_ℤ}
use cestos_oversight.Base.Decimal.{Decimal, scaled, ◌=ᵈ◌, ◌≤ᵈ◌, quantize}
use cestos_oversight.Base.Table.{Table}
use cestos_oversight.Base.Action.{
  Action, validation, integrity, pure, raise, or_raise, raise_if, ◌>>=◌, ◌>>◌,
}
use cestos_oversight.Inventory.Model.{Kind, Document, Line, Db}
use cestos_oversight.Inventory.References.{Env, ref}
use cestos_oversight.Inventory.Quantity.{base_quantity}
use cestos_oversight.Inventory.Ledger.{bucket}
use cestos_oversight.Inventory.PostLine.{PostAction, post_line}

-- `InventoryAction`: a reason, and quantities by line.
pub record Body : Type 0 where
  pub reason : Option String
  pub quantities : Table Decimal

-- The counted quantity of a line: the one given with the submission, or the one it has.
unfoldable pub check_count : Line → Option Decimal → Option ℤ → Action Db Line
check_count line none none = raise (validation "Provide a nonnegative count for every line")
check_count line none (some old) = do
  raise_if (ltb_ℤ old zero_ℤ) (validation "Provide a nonnegative count for every line")
  pure line
check_count line (some value) old = do
  raise_if (ltb_ℤ value.coefficient zero_ℤ || not (value =ᵈ scaled 4 (quantize 4 value)))
      (validation "Provide a nonnegative count for every line")
  pure (record line { counted_quantity = some (quantize 4 value) })

unfoldable pub count_line : Body → Line → Action Db Line
unfolding check_count
count_line body line = check_count line (body.quantities line.id) line.counted_quantity

-- The start of a count on a line: the quantity that the system holds now.
unfoldable pub start_line : Bool → Document → Line → Action Db Line
start_line again doc line = do
  store ← or_raise doc.store_id integrity
  b ← bucket (record {
    item_id = line.item_id;
    store_id = store;
    bin_id = line.bin_id;
    lot_id = line.lot_id;
  })
  pure (record line {
    system_quantity = some b.quantity_on_hand;
    counted_quantity = if again then none else line.counted_quantity;
  })

-- The approved quantity of a line of a request, within what was requested.
unfoldable pub approve_line : Body → Line → Action Db Line
approve_line body line = do
  let q = get_or (body.quantities line.id) (scaled 4 line.quantity)
  raise_if (ltb_ℤ q.coefficient zero_ℤ || not (q ≤ᵈ scaled 4 line.quantity))
      (validation "Approved quantity must be within requested quantity")
  if leb_ℤ q.coefficient zero_ℤ then pure (record line { quantity_approved = some zero_ℤ }) else (do
    item ← ref (λ db. db.items line.item_id)
    n ← base_quantity item line.unit_id q
    pure (record line { quantity_approved = some n }))

-- One call for each line, in their order.
unfoldable pub each_line : (Line → Action Db Line) → List Line → Action Db (List Line)
each_line f [] = pure []
each_line f (line ∷ lines) = do first ← f line; rest ← each_line f lines; pure (first ∷ rest)

-- The loop over the lines, for the kinds of document that have it.
unfoldable pub lines_if : Bool → (Line → Action Db Line) → List Line → Action Db (List Line)
lines_if true f lines = each_line f lines
lines_if false f lines = pure lines

-- The loop over `post_line`: a branch may write to the document, and does to the line.
unfoldable pub post_lines :
    (Decimal → Decimal)
    → Env
    → Kind
    → PostAction
    → Document
    → List Line
    → Action Db (Document × List Line)
post_lines column_8 env kind a doc [] = pure (doc, [])
post_lines column_8 env kind a doc (line ∷ lines) = do
  r ← post_line column_8 env kind a doc line
  rest ← post_lines column_8 env kind a r.0 lines
  pure (rest.0, r.1 ∷ rest.1)
