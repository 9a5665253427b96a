-- ===== src/Drilling/Fees.antt =====
-- Only an approval writes revenue, and it charges a contract's mobilization fee once
-- (app/services/drilling.py with app/services/commercial.py).
use cestos_oversight.Base.{ℕ, ◌≤◌, ◌≡◌, refl, Option, some, List, [], ◌∷◌, Bool, true, false}
use cestos_oversight.Base.Int.{ℤ}
use cestos_oversight.Base.Decimal.{Decimal}
use cestos_oversight.Base.Text.{Text}
use cestos_oversight.Base.Action.{Result, ok, err, modify, state_after}
use cestos_oversight.Base.Keeps.{Keeps, After, Keeps-modify, Keeps-bind, Keeps-pure, keeps_rules}
use cestos_oversight.Commercial.Model.{RevenueSubledgerEntry}
use cestos_oversight.Commercial.Reposting.{fees_of, fee_once}
use cestos_oversight.Drilling.Model.{DrillingShiftReport}
use cestos_oversight.Drilling.Store.{Db, save}
use cestos_oversight.Drilling.Workflow.{submit, approve, record_work, send_back, delete}
use cestos_oversight.Drilling.Update.{ShiftReportUpdate, update}
use cestos_oversight.Drilling.Reads.{report_of-Keeps, validate-Keeps, totalled-Keeps}
use cestos_oversight.Drilling.Service.{Request, Call, serve, serve_all}

module _ (Q : List RevenueSubledgerEntry → Type 0) where
  -- A condition on the revenue alone.
  abbrev OnRevenue : Db → Type 0
  OnRevenue db = Q db.revenue

  save-Keeps : (r : DrillingShiftReport) → Keeps OnRevenue (save r)
  unfolding save
  save-Keeps r = Keeps-modify _ (λ s h. h)

  ruleset revenue_rules = (keeps_rules, report_of-Keeps, save-Keeps)

  submit-Keeps :
      (user now id : ℕ) (notes : Option Text) → Keeps OnRevenue (submit user now id notes)
  unfolding submit
  submit-Keeps user now id notes = search revenue_rules

  send_back-Keeps : (id : ℕ) (reason : Text) → Keeps OnRevenue (send_back id reason)
  unfolding send_back
  send_back-Keeps id reason = search revenue_rules

  dropped :
      (f : Db → List DrillingShiftReport)
      → Keeps OnRevenue (modify (λ db. record db { reports = f db }))
  dropped f = Keeps-modify _ (λ s h. h)

  delete-Keeps : (id : ℕ) → Keeps OnRevenue (delete id)
  unfolding delete
  delete-Keeps id = search (revenue_rules, dropped)

  module _ (column_2 : Decimal → ℤ) where
    update-Keeps :
        (org : ℕ) (actor : Option ℕ) (id : ℕ) (p : ShiftReportUpdate)
        → Keeps OnRevenue (update column_2 org actor id p)
    unfolding update
    update-Keeps org actor id p = search (revenue_rules, validate-Keeps, totalled-Keeps) depth 12

  state_after-OnRevenue :
      (r : Result (Unit × Db)) (s : Db)
      → OnRevenue s
      → After OnRevenue r
      → OnRevenue (state_after r s)
  state_after-OnRevenue (ok r) s h a = a
  state_after-OnRevenue (err e) s h a = h

unfoldable pub is_approval : Request → Bool
is_approval (Request.approval notes) = true
is_approval _ = false

-- No contract has more than one mobilization fee.
abbrev pub HasFeesOnce : List RevenueSubledgerEntry → Type 0
HasFeesOnce ledger = (c : ℕ) → fees_of c ledger ≤ 1

module _ (column_2 : Decimal → ℤ) (org : ℕ) where
  record_work-Keeps :
      (user now : ℕ) (r : DrillingShiftReport)
      → Keeps (OnRevenue HasFeesOnce) (modify (record_work column_2 org user now r))
  unfolding record_work
  record_work-Keeps user now r =
      Keeps-modify _ (λ s h c. fee_once column_2 r (some user) now s.contracts c s.revenue (h c))

  approve-Keeps :
      (user now id : ℕ) (notes : Option Text)
      → Keeps (OnRevenue HasFeesOnce) (approve column_2 org user now id notes)
  unfolding approve
  approve-Keeps user now id notes =
      search (keeps_rules, report_of-Keeps, save-Keeps, record_work-Keeps) depth 9

  serve-Keeps :
      (Q : List RevenueSubledgerEntry → Type 0) (user now id : ℕ) (q : Request)
      → is_approval q ≡ false
      → Keeps (OnRevenue Q) (serve column_2 org user now id q)
  unfolding serve is_approval
  serve-Keeps Q user now id (Request.edited p) h =
      Keeps-bind _ _ (update-Keeps Q column_2 org (some user) id p) (λ r. Keeps-pure tt)
  serve-Keeps Q user now id (Request.submitted notes) h =
      Keeps-bind _ _ (submit-Keeps Q user now id notes) (λ r. Keeps-pure tt)
  serve-Keeps Q user now id (Request.approval notes) h = cc
  serve-Keeps Q user now id (Request.returned reason) h =
      Keeps-bind _ _ (send_back-Keeps Q id reason) (λ r. Keeps-pure tt)
  serve-Keeps Q user now id Request.deleted h =
      Keeps-bind _ _ (delete-Keeps Q id) (λ r. Keeps-pure tt)

  serve-HasFeesOnce :
      (user now id : ℕ) (q : Request)
      → Keeps (OnRevenue HasFeesOnce) (serve column_2 org user now id q)
  unfolding serve is_approval
  serve-HasFeesOnce user now id (Request.approval notes) =
      Keeps-bind _ _ (approve-Keeps user now id notes) (λ r. Keeps-pure tt)
  serve-HasFeesOnce user now id q = serve-Keeps HasFeesOnce user now id q refl

  -- A request that is not an approval leaves the revenue as it is: a correction of an approved report
  -- neither posts revenue nor takes any back.
  pub revenue_by_approval :
      (user now id : ℕ) (q : Request) (s : Db)
      → is_approval q ≡ false
      → (state_after (serve column_2 org user now id q s) s).revenue ≡ s.revenue
  revenue_by_approval user now id q s h =
      let Same : List RevenueSubledgerEntry → Type 0 = λ l. l ≡ s.revenue in
      state_after-OnRevenue Same (serve column_2 org user now id q s) s refl
        ((serve-Keeps Same user now id q h).at s refl)

  -- Whatever the requests on shift reports, no contract is charged more than one mobilization fee,
  -- where none was before them.
  pub fees_charged_once :
      (calls : List Call) (s : Db)
      → HasFeesOnce s.revenue
      → HasFeesOnce (serve_all column_2 org calls s).revenue
  unfolding serve_all
  fees_charged_once [] s h = h
  fees_charged_once (c ∷ cs) s h =
      let before = serve_all column_2 org cs s in
      let kept : HasFeesOnce before.revenue = fees_charged_once cs s h in
      state_after-OnRevenue HasFeesOnce (serve column_2 org c.user c.now c.id c.request before)
        before kept ((serve-HasFeesOnce c.user c.now c.id c.request).at before kept)
