-- ===== src/Inventory/Issues/Within.antt =====
-- The issues of a request (the `request_id` branch of `post_line`, app/services/inventory.py) stay
-- within what was approved.
use cestos_oversight.Base.{
  ℕ, ◌≡◌, some, List, [], ◌∷◌, Bool, true, false, ◌&&◌, ◌==◌, get_or, find, update_first, arith,
  inl, inr, Bool-cases, Option-cases,
}
use cestos_oversight.Base.Int.{ℤ, ◌+ℤ◌, leb_ℤ, ltb_ℤ, zero_ℤ}
use cestos_oversight.Base.Table.{put}
use cestos_oversight.Base.Action.{ok, ◌>>=◌}
use cestos_oversight.Inventory.Model.{Kind, Document, Line, Db}
use cestos_oversight.Inventory.References.{ref, document_row}
use cestos_oversight.Inventory.Posting.{Posting}
use cestos_oversight.Inventory.Issues.{use_request, issue_line}

-- No more of the line is issued than was approved; without an approval nothing is.
abbrev pub is_within : Line → Bool
is_within l = leb_ℤ l.quantity_issued (get_or l.quantity_approved zero_ℤ)

abbrev pub all_within : List Line → Bool
all_within [] = true
all_within (l ∷ ls) = is_within l && all_within ls

-- The condition on the tables: every line of every document is within its approval.
abbrev pub IsWithin : Db → Type 0
IsWithin db = (id : ℕ) (d : Document) → db.documents id ≡ some d → all_within d.lines ≡ true

abbrev issue_more : ℤ → Line → Line
issue_more q l = record l { quantity_issued = l.quantity_issued +ℤ q }

all_within-update :
    (p : Line → Bool) (q : ℤ) (ls : List Line) (l : Line)
    → find p ls ≡ some l
    → ltb_ℤ (get_or l.quantity_approved zero_ℤ) (l.quantity_issued +ℤ q) ≡ false
    → all_within ls ≡ true
    → all_within (update_first p (issue_more q) ls) ≡ true
all_within-update p q [] l f h w = ground arith
all_within-update p q (x ∷ xs) l f h w = elim (Bool-cases (p x)) [
  | inl hit ↦ ground arith
  | inr miss ↦ ground (arith, all_within-update p q xs l)
]

row_of_document :
    (kind : Kind) (id : ℕ) (db : Db) (d : Document)
    → document_row kind id db ≡ some d
    → db.documents id ≡ some d
unfolding document_row
row_of_document kind id db d e = elim (Option-cases (db.documents id)) [
  | inl missing ↦ ground arith
  | inr (d', found) ↦ ground arith
]

issue_line-within :
    (item_id : ℕ) (q : ℤ) (request : Document) (line : Line)
    → find (λ (l : Line). l.item_id == item_id) request.lines ≡ some line
    → ltb_ℤ (get_or line.quantity_approved zero_ℤ) (line.quantity_issued +ℤ q) ≡ false
    → all_within request.lines ≡ true
    → all_within (issue_line item_id q request).lines ≡ true
unfolding issue_line
issue_line-within item_id q request line f enough w =
    all_within-update (λ l. l.item_id == item_id) q request.lines line f enough w

written-IsWithin :
    (id : ℕ) (d : Document) (s s' : Db)
    → IsWithin s
    → s'.documents ≡ put id d s.documents
    → all_within d.lines ≡ true
    → IsWithin s'
written-IsWithin id d s s' h e w j d' row = elim (Bool-cases (j == id)) [
  | inl same ↦ let eq : some d' ≡ some d = ground arith in let eq' : d' ≡ d = cc in rw eq' w
  | inr other ↦ h j d' (ground arith)
]

-- An issue never takes a request above its approval: where no line of any document has more issued
-- than approved, the use of a request by an issue fails or leaves it so.
pub use_request-IsWithin :
    (p : Posting) (id : ℕ) (s s' : Db)
    → IsWithin s
    → use_request p (some id) s ≡ ok (tt, s')
    → IsWithin s'
unfolding use_request ref ◌>>=◌
use_request-IsWithin p id s s' h e =
    elim (Option-cases (document_row Kind.requests id s)) as (λ _. IsWithin s') [
      | inl missing ↦ λ j d row. ground arith
      | inr (request, found) ↦
          elim (Option-cases (find (λ (l : Line). l.item_id == p.item.id) request.lines))
            as (λ _. IsWithin s') [
              | inl missing ↦ λ j d row. ground arith
              | inr (line, f) ↦
                  let enough : ltb_ℤ (get_or line.quantity_approved zero_ℤ)
                        (line.quantity_issued +ℤ p.q)
                      ≡ false =
                    ground arith in
                  let written : s'.documents
                      ≡ put id (issue_line p.item.id p.q request) s.documents =
                    ground arith in
                  written-IsWithin id (issue_line p.item.id p.q request) s s' h written (
                    issue_line-within p.item.id p.q request line f enough
                      (h id request (row_of_document Kind.requests id s request found)))
            ]
    ]
