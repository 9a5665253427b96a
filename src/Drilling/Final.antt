-- ===== src/Drilling/Final.antt =====
-- An approved shift report stays approved, by the same approver (app/services/drilling.py).
use cestos_oversight.Base.{
  ℕ, ◌≡◌, refl, ap, sym, ◌∙◌, Option, some, List, [], ◌∷◌, true, false, not, ◌==◌, find,
  update_first, keep, arith, inl, inr, Bool-cases, Option-cases, if◌then◌else◌, is_set, ◌||◌,
}
use mathlib.Core.Path.{subst}
use cestos_oversight.Base.Int.{ℤ}
use cestos_oversight.Base.Decimal.{Decimal}
use cestos_oversight.Base.Text.{Text}
use cestos_oversight.Base.Action.{Action, Result, ok, err, pure, modify, state_after, ◌>>◌}
use cestos_oversight.Base.Keeps.{Keeps, After, Keeps-modify, Keeps-bind, Keeps-pure, keeps_rules}
use cestos_oversight.Base.Gives.{
  Gives, Gives-bind, Gives-then, Gives-pure, Gives-gets, Gives-or_raise, Gives-raise_if,
  Gives-Keeps, Gives-if,
}
use cestos_oversight.Drilling.Model.{ShiftReportStatus, DrillingShiftReport}
use cestos_oversight.Drilling.Store.{Db, is_report, live_report, report_of, save}
use cestos_oversight.Drilling.Workflow.{
  is_open, is_approved, is_submitted, submit, approve, approved_report, record_work, send_back,
  delete,
}
use cestos_oversight.Drilling.Update.{
  IntervalCreate, TimeSegmentCreate, ShiftReportUpdate, recalculate, intervals_of, segments_of,
  totalled, update,
}
use cestos_oversight.Drilling.Reads.{measure-Keeps, validate-Keeps}
use cestos_oversight.Drilling.Service.{Request, Call, serve, serve_all}

found_id :
    (id : ℕ) (rs : List DrillingShiftReport) (r : DrillingShiftReport)
    → find (is_report id) rs ≡ some r
    → r.id ≡ id
found_id id [] r h = ground arith
found_id id (x ∷ xs) r h = elim (Bool-cases (x.id == id)) [
  | inl e ↦
      let same : some x ≡ some r = ground arith in
      let same' : x ≡ r = cc in let at : x.id ≡ id = ground arith in rw (sym same') at
  | inr e ↦ found_id id xs r (rw e at h)
]

find-save_same :
    (r old : DrillingShiftReport) (rs : List DrillingShiftReport)
    → find (is_report r.id) rs ≡ some old
    → find (is_report r.id) (update_first (is_report r.id) (λ _. r) rs) ≡ some r
find-save_same r old [] h = ground arith
find-save_same r old (x ∷ xs) h = elim (Bool-cases (x.id == r.id)) [
  | inl e ↦ rw e (ground arith)
  | inr e ↦ rw e (rw e (find-save_same r old xs (rw e at h)))
]

find-save_at :
    (id : ℕ) (r old : DrillingShiftReport) (rs : List DrillingShiftReport)
    → r.id ≡ id
    → find (is_report id) rs ≡ some old
    → find (is_report id) (update_first (is_report r.id) (λ _. r) rs) ≡ some r
find-save_at id r old rs e h =
    subst
      (λ i.
        find (is_report i) rs ≡ some old
        → find (is_report i) (update_first (is_report r.id) (λ _. r) rs) ≡ some r)
      e (find-save_same r old rs) h

open_unapproved : (s : ShiftReportStatus) → is_open s ≡ true → is_approved s ≡ false
unfolding is_open is_approved
open_unapproved s h = ground arith

submitted_unapproved : (s : ShiftReportStatus) → is_submitted s ≡ true → is_approved s ≡ false
unfolding is_submitted is_approved
submitted_unapproved s h = ground arith

find-save_other :
    (id : ℕ) (r : DrillingShiftReport) (rs : List DrillingShiftReport)
    → (r.id == id) ≡ false
    → find (is_report id) (update_first (is_report r.id) (λ _. r) rs) ≡ find (is_report id) rs
find-save_other id r [] h = refl
find-save_other id r (x ∷ xs) h = elim (Bool-cases (x.id == r.id)) [
  | inl e ↦
      let at : x.id ≡ r.id = ground arith in
      let miss : (x.id == id) ≡ false = rw at h in rw (e, miss) (rw h refl)
  | inr e ↦ rw e (ap (λ o. if x.id == id then some x else o) (find-save_other id r xs h))
]

find-delete_other :
    (id k : ℕ) (rs : List DrillingShiftReport)
    → (k == id) ≡ false
    → find (is_report id) (keep (λ r. not (is_report k r)) rs) ≡ find (is_report id) rs
find-delete_other id k [] h = refl
find-delete_other id k (x ∷ xs) h = elim (Bool-cases (x.id == k)) [
  | inl e ↦
      let at : x.id ≡ k = ground arith in
      let miss : (x.id == id) ≡ false = rw at h in rw (e, miss) (find-delete_other id k xs h)
  | inr e ↦ rw e (ap (λ o. if x.id == id then some x else o) (find-delete_other id k xs h))
]

-- The report is approved, by `approver` at `time`.
pub record IsApprovedBy (approver time : Option ℕ) (r : DrillingShiftReport) : Type 0 where
  pub approved : is_approved r.status ≡ true
  pub by : r.approved_by_id ≡ approver
  pub at : r.approved_at ≡ time

-- The report keeps its id and its approval.
pub record IsSameApproval (r after : DrillingShiftReport) : Type 0 where
  pub id : after.id ≡ r.id
  pub status : after.status ≡ r.status
  pub by : after.approved_by_id ≡ r.approved_by_id
  pub at : after.approved_at ≡ r.approved_at

-- The row of the report is there, and approved.
pub record HasApproved (id : ℕ) (approver time : Option ℕ) (db : Db) : Type 0 where
  pub row : DrillingShiftReport
  pub there : find (is_report id) db.reports ≡ some row
  pub is_so : IsApprovedBy approver time row

module _ (id : ℕ) (approver time : Option ℕ) where
  abbrev Kept : Db → Type 0
  Kept = HasApproved id approver time

  -- A report that may be written: it is another one, or approved as before.
  abbrev MayWrite : DrillingShiftReport → Type 0
  MayWrite r = (r.id == id) ≡ true → IsApprovedBy approver time r

  live_found :
      (k : ℕ) (db : Db) (r : DrillingShiftReport)
      → live_report k db ≡ some r
      → find (is_report k) db.reports ≡ some r
  live_found k db r h = elim (Option-cases (find (is_report k) db.reports)) [
    | inl e ↦ ground arith
    | inr (x, e) ↦ ground arith
  ]

  report_of-Gives : (k : ℕ) → Gives Kept (λ r. MayWrite r × (r.id ≡ k)) (report_of k)
  unfolding report_of
  report_of-Gives k =
      Gives-bind {R = λ o. (r : DrillingShiftReport) → o ≡ some r → MayWrite r × (r.id ≡ k)}
        (Gives-gets (live_report k) (λ s h r row.
          let found : find (is_report k) s.reports ≡ some r = live_found k s r row in
          let at : r.id ≡ k = found_id k s.reports r found in
          (
            λ same.
                let place : k ≡ id = ground (arith, at) in
                let there : some h.row ≡ some r =
                  sym h.there ∙ ap (λ i. find (is_report i) s.reports) (sym place) ∙ found in
                let it : h.row ≡ r = cc in subst (IsApprovedBy approver time) it h.is_so,
            at,
          )))
        (λ found row. Gives-or_raise found _ row)

  save-Kept : (r : DrillingShiftReport) → MayWrite r → Keeps Kept (save r)
  unfolding save
  save-Kept r may = Keeps-modify _ (λ s h. elim (Bool-cases (r.id == id)) [
    | inl e ↦ record {
      row = r;
      there = find-save_at id r h.row s.reports (ground arith) h.there;
      is_so = may e;
    }
    | inr e ↦ record {
      row = h.row;
      there = find-save_other id r s.reports e ∙ h.there;
      is_so = h.is_so;
    }
  ])

  modify-Kept : (f : Db → Db) → ((s : Db) → (f s).reports ≡ s.reports) → Keeps Kept (modify f)
  modify-Kept f same = Keeps-modify f (λ s h. record {
    row = h.row;
    there = ap (find (is_report id)) (same s) ∙ h.there;
    is_so = h.is_so;
  })

  drop-Kept :
      (k : ℕ)
      → (k == id) ≡ false
      → Keeps Kept
          (modify (λ db. record db { reports = keep (λ r. not (is_report k r)) db.reports }))
  drop-Kept k other = Keeps-modify _ (λ s h. record {
    row = h.row;
    there = find-delete_other id k s.reports other ∙ h.there;
    is_so = h.is_so;
  })

  other :
      (r : DrillingShiftReport) (k : ℕ)
      → MayWrite r × (r.id ≡ k)
      → is_approved r.status ≡ false
      → (k == id) ≡ false
  other r k may pending = elim (Bool-cases (k == id)) [
    | inl e ↦ let yes = (may.0 (rw may.1 e)).approved in ground arith
    | inr e ↦ e
  ]

  -- A report that is not approved may be written in any way, if it keeps its id.
  unapproved :
      (r after : DrillingShiftReport)
      → MayWrite r
      → is_approved r.status ≡ false
      → after.id ≡ r.id
      → MayWrite after
  unapproved r after may pending same e =
      let at : (r.id == id) ≡ true = rw same at e in let yes = (may at).approved in ground arith

  carried_over :
      (r after : DrillingShiftReport) → MayWrite r → IsSameApproval r after → MayWrite after
  carried_over r after may same e =
      let before = may (rw same.id at e) in
      record {
        approved = ap is_approved same.status ∙ before.approved;
        by = same.by ∙ before.by;
        at = same.at ∙ before.at;
      }

  abbrev Quiet : {A : Type 0} → Action Db A → Type 0
  Quiet m = Gives Kept (λ _. Unit {0}) m

  saved : (r : DrillingShiftReport) → MayWrite r → Quiet (save r >> pure r)
  saved r may = Gives-then (save-Kept r may) (λ u. Gives-pure r tt)

  submit-Quiet : (user now k : ℕ) (notes : Option Text) → Quiet (submit user now k notes)
  unfolding submit
  submit-Quiet user now k notes = Gives-bind (report_of-Gives k) (λ r may.
      Gives-bind (Gives-raise_if _ _)
        (λ u ready. saved _ (unapproved r _ may.0 (open_unapproved r.status (ground arith)) refl)))

  send_back-Quiet : (k : ℕ) (reason : Text) → Quiet (send_back k reason)
  unfolding send_back
  send_back-Quiet k reason = Gives-bind (report_of-Gives k) (λ r may.
      Gives-bind (Gives-raise_if _ _) (λ u ready.
        saved _ (unapproved r _ may.0 (submitted_unapproved r.status (ground arith)) refl)))

  delete-Quiet : (k : ℕ) → Quiet (delete k)
  unfolding delete
  delete-Quiet k = Gives-bind (report_of-Gives k) (λ r may.
      Gives-bind (Gives-raise_if _ _)
        (λ u pending. Gives-then (drop-Kept k (other r k may pending)) (λ v. Gives-pure true tt)))

  Quiet-then : {A : Type 0} {m : Action Db A} → Quiet m → Keeps Kept (m >> pure tt)
  Quiet-then {A} {m} q = Keeps-bind m _ (Gives-Keeps m q) (λ r. Keeps-pure tt)

  state_after-Kept :
      (r : Result (Unit × Db)) (s : Db) → Kept s → After Kept r → Kept (state_after r s)
  state_after-Kept (ok r) s h a = a
  state_after-Kept (err e) s h a = h

  module _ (column_2 : Decimal → ℤ) (org : ℕ) where
    approve-Quiet :
        (user now k : ℕ) (notes : Option Text) → Quiet (approve column_2 org user now k notes)
    unfolding approve approved_report record_work
    approve-Quiet user now k notes = Gives-then (search keeps_rules) (λ refused.
        Gives-then (search keeps_rules) (λ u. Gives-bind (report_of-Gives k) (λ r may.
          Gives-bind (Gives-raise_if _ _) (λ v pending.
            Gives-then (save-Kept _ (unapproved r _ may.0 pending refl))
              (λ w. Gives-then (modify-Kept _ (λ s. refl)) (λ x. Gives-pure _ tt))))))

    recalculate-Gives :
        (is : List IntervalCreate) (ss : List TimeSegmentCreate) (r : DrillingShiftReport)
        → Gives Kept (IsSameApproval r) (recalculate column_2 is ss r)
    unfolding recalculate
    recalculate-Gives is ss r =
        Gives-then (measure-Keeps column_2 is _)
          (λ m. Gives-pure _ (record { id = refl; status = refl; by = refl; at = refl }))

    totalled-Gives :
        (p : ShiftReportUpdate) (old r : DrillingShiftReport)
        → Gives Kept (IsSameApproval r) (totalled column_2 p old r)
    unfolding totalled
    totalled-Gives p old r =
        Gives-if (is_set p.intervals || is_set p.time_segments)
          (recalculate column_2 (intervals_of column_2 p old) (segments_of column_2 p old) r)
          (pure r)
          (λ e. recalculate-Gives (intervals_of column_2 p old) (segments_of column_2 p old) r)
          (λ e. Gives-pure r (record { id = refl; status = refl; by = refl; at = refl }))

    update-Quiet :
        (actor : Option ℕ) (k : ℕ) (p : ShiftReportUpdate) → Quiet (update column_2 org actor k p)
    unfolding update
    update-Quiet actor k p = Gives-then (search keeps_rules) (λ u.
        Gives-bind (report_of-Gives k) (λ r may. Gives-then (search keeps_rules) (λ v.
          Gives-then (search validate-Keeps) (λ w. Gives-bind (totalled-Gives p r _) (λ total same.
            Gives-then (search keeps_rules) (λ taken. Gives-then (search keeps_rules) (λ free.
              saved _ (
                carried_over r _ may.0 (record {
                  id = same.id;
                  status = same.status;
                  by = same.by;
                  at = same.at;
                })))))))))

    serve-Kept : (user now k : ℕ) (q : Request) → Keeps Kept (serve column_2 org user now k q)
    unfolding serve
    serve-Kept user now k (Request.edited p) = Quiet-then (update-Quiet (some user) k p)
    serve-Kept user now k (Request.submitted notes) = Quiet-then (submit-Quiet user now k notes)
    serve-Kept user now k (Request.approval notes) = Quiet-then (approve-Quiet user now k notes)
    serve-Kept user now k (Request.returned reason) = Quiet-then (send_back-Quiet k reason)
    serve-Kept user now k Request.deleted = Quiet-then (delete-Quiet k)

    -- An approved report is final: whatever requests follow, on this report or another, its row is
    -- there, approved, with the same approver and time of approval. It is not submitted or approved
    -- again, returned or deleted, and a correction leaves the approval as it is.
    pub approved_final :
        (calls : List Call) (s : Db)
        → HasApproved id approver time s
        → HasApproved id approver time (serve_all column_2 org calls s)
    unfolding serve_all
    approved_final [] s h = h
    approved_final (c ∷ cs) s h =
        let before = serve_all column_2 org cs s in
        let kept : Kept before = approved_final cs s h in
        state_after-Kept (serve column_2 org c.user c.now c.id c.request before) before kept
          ((serve-Kept c.user c.now c.id c.request).at before kept)
