-- ===== src/Inventory/Documents/Repeated.antt =====
-- An action that is repeated (`action` of app/services/inventory.py).
use cestos_oversight.Base.{
  ℕ, ◌≡◌, ◌≢◌, refl, some, [], ◌∷◌, true, arith, inl, inr, Option-cases, Bool-cases,
}
use cestos_oversight.Base.Decimal.{Decimal}
use cestos_oversight.Base.Action.{Action, Result, ok, err, continue, pure, modify, ◌>>=◌, ◌>>◌}
use cestos_oversight.Base.Table.{Table, put}
use cestos_oversight.Base.Yields.{Yields, Yields-pure, yields_rules, Returned}
use cestos_oversight.Inventory.Model.{Kind, Document, Db}
use cestos_oversight.Inventory.References.{Env, ref, document_row, same_kind}
use cestos_oversight.Inventory.Ledger.{audit}
use cestos_oversight.Inventory.PostLine.{PostAction}
use cestos_oversight.Inventory.Documents.Kinds.{IsKindOf, perform-kind}
use cestos_oversight.Inventory.Documents.{perform, action, noted}
use cestos_oversight.Inventory.DocumentLines.{Body}
use cestos_oversight.Inventory.Statuses.{
  DocumentAction, moving, cancel, reject, submit, start, restart, approve, is_done, terminal,
  mark_posted, counter, done_word,
}

-- The document has the status that the action leads to.
abbrev IsDone : DocumentAction → Document → Type 0
IsDone a d = is_done d.status (terminal a) ≡ true

module _ (column_8 : Decimal → Decimal) (env : Env) (kind : Kind) (body : Body) where
  posted-IsDone : (a : PostAction) (d : Document) → IsDone (moving a) (mark_posted env a d)
  unfolding mark_posted terminal is_done
  posted-IsDone PostAction.post d = refl
  posted-IsDone PostAction.dispatch d = refl
  posted-IsDone PostAction.receive d = refl

  marked-IsDone :
      (a : PostAction) (d : Document)
      → Yields {S = Db} (IsDone (moving a)) (pure (mark_posted env a d))
  marked-IsDone a d = Yields-pure (mark_posted env a d) (posted-IsDone a d)

  done : (a : DocumentAction) (d : Document) → IsDone a d → Yields {S = Db} (IsDone a) (pure d)
  done a d h = Yields-pure d h

  perform-IsDone :
      (a : DocumentAction) (doc : Document)
      → (a ≢ restart)
      → Yields (IsDone a) (perform column_8 env kind body a doc)
  unfolding perform terminal is_done
  perform-IsDone cancel doc h = search (yields_rules, Yields-pure)
  perform-IsDone reject doc h = search (yields_rules, Yields-pure)
  perform-IsDone submit doc h = search (yields_rules, Yields-pure)
  perform-IsDone start doc h = search (yields_rules, Yields-pure)
  perform-IsDone restart doc h = elim (h refl) [ ]
  perform-IsDone approve doc h = search (yields_rules, Yields-pure)
  perform-IsDone (moving a) doc h = search (yields_rules, marked-IsDone) depth 12

same_kind_refl : (k : Kind) → same_kind k k ≡ true
unfolding same_kind
same_kind_refl k = ground arith

-- A row that is found in the table of a kind has that kind.
document_row-kind :
    (kind : Kind) (id : ℕ) (db : Db) (doc : Document)
    → document_row kind id db ≡ some doc
    → same_kind doc.kind kind ≡ true
unfolding document_row
document_row-kind kind id db doc e = elim (Option-cases (db.documents id)) [
  | inl missing ↦ ground arith
  | inr (d, found) ↦ ground arith
]

document_row-put :
    (kind : Kind) (id : ℕ) (db : Db) (doc : Document) (documents : Table Document)
    → db.documents ≡ put id doc documents
    → same_kind doc.kind kind ≡ true
    → document_row kind id db ≡ some doc
unfolding document_row
document_row-put kind id db doc documents e same = ground arith

module _ (column_8 : Decimal → Decimal) (env : Env) (kind : Kind) (body : Body) where
  noted_status : (d : Document) → (noted column_8 env kind body d).status ≡ d.status
  unfolding noted
  noted_status d = ground arith

  noted_kind : (d : Document) → (noted column_8 env kind body d).kind ≡ d.kind
  unfolding noted
  noted_kind d = ground arith

  -- A document with the status of the action is left alone.
  settled :
      (id : ℕ) (a : DocumentAction) (db : Db) (doc : Document)
      → document_row kind id db ≡ some doc
      → is_done doc.status (terminal a) ≡ true
      → action column_8 env kind body id a db ≡ ok (tt, db)
  unfolding action ref ◌>>=◌
  settled id a db doc e h = ground arith

module _ (column_8 later_column_8 : Decimal → Decimal) (env later : Env) (kind : Kind)
    (body later_body : Body) (id : ℕ) (a : DocumentAction) where
  -- What follows the branch of the action.
  write_back : Document → Action Db (Unit {0})
  write_back after = do
    modify
        (λ db. record db { documents = put id (noted column_8 env kind body after) db.documents })
    audit (counter kind ∷ done_word a ∷ []) id

  write_back-settled :
      (r : Result (Document × Db)) (doc : Document) (db' : Db)
      → Returned (IsDone a) r
      → Returned (IsKindOf doc) r
      → same_kind doc.kind kind ≡ true
      → continue r write_back ≡ ok (tt, db')
      → action later_column_8 later kind later_body id a db' ≡ ok (tt, db')
  unfolding write_back audit ◌>>=◌
  write_back-settled (err e) doc db' done same k w = ground arith
  write_back-settled (ok (after, s)) doc db' done same k w =
      let row : Document = noted column_8 env kind body after in
      let written : db'.documents ≡ put id row s.documents = ground arith in
      settled later_column_8 later kind later_body id a db' row
        (document_row-put kind id db' row s.documents written
          (rw (noted_kind column_8 env kind body after, same) k))
        (rw (noted_status column_8 env kind body after) done)

  -- An action that has succeeded on a document succeeds again, whoever repeats it and whatever the
  -- repetition carries, and changes nothing; a restart of a count is no such action.
  pub action_repeated :
      (db db' : Db)
      → a ≢ restart
      → action column_8 env kind body id a db ≡ ok (tt, db')
      → action later_column_8 later kind later_body id a db' ≡ ok (tt, db')
  unfolding action write_back ref ◌>>=◌
  action_repeated db db' ne e = elim (Option-cases (document_row kind id db)) [
    | inl missing ↦ ground arith
    | inr (doc, found) ↦ elim (Bool-cases (is_done doc.status (terminal a))) [
      | inl over ↦
          let same : db' ≡ db = ground arith in
          rw same (settled later_column_8 later kind later_body id a db doc found over)
      | inr pending ↦
          write_back-settled (perform column_8 env kind body a doc db) doc db'
            ((perform-IsDone column_8 env kind body a doc ne).at db)
            ((perform-kind column_8 env kind body a doc).at db)
            (document_row-kind kind id db doc found) (ground arith)
    ]
  ]
