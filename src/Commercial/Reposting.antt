-- ===== src/Commercial/Reposting.antt =====
-- Posting the revenue of a shift report again, and the fees of a contract
-- (`calculate_and_post_shift_revenue`, app/services/commercial.py).
use cestos_oversight.Base.{
  ℕ, ◌+◌, ◌≤◌, ◌≡◌, refl, ap, ◌∙◌, sym, Option, none, some, List, [], ◌∷◌, ◌++◌, Bool, true, false,
  not, ◌==◌, ==_refl, if◌then◌else◌, find, any, keep, length, length-append, All, arith, inl, inr,
  Bool-cases,
}
use mathlib.Core.Path.{subst}
use cestos_oversight.Base.Int.{ℤ, pos, zero_ℤ, leb_ℤ}
use cestos_oversight.Base.Selections.{
  append_nil, keep-append, keep_twice, keep_of_any, keep_fewer, length-keep_one, All-append,
}
use cestos_oversight.Base.Decimal.{Decimal}
use cestos_oversight.Drilling.Model.{DrillingShiftInterval, DrillingShiftReport, TimeCategory}
use cestos_oversight.Commercial.Model.{
  RateType, RevenueCategory, ContractRateCard, ProjectContract, RevenueSubledgerEntry,
}
use cestos_oversight.Commercial.Revenue.{
  active_contract, has_type, hours_of, is_mobilization, entry, of_shift, is_fee, priced, bill,
  bands, fallback, interval_revenue, metreage, hourly, daywork_hours, mobilization, work, posted,
  post_under, post_shift_revenue,
}

module _ (column_2 : Decimal → ℤ) (report : DrillingShiftReport) (contract : ProjectContract)
    (actor : Option ℕ) (now : ℕ) where
  -- An entry of the report that is no fee.
  IsOurs : RevenueSubledgerEntry → Type 0
  IsOurs e = (not (of_shift report.id e) ≡ false) × (is_mobilization e.revenue_category ≡ false)

  priced-IsOurs :
      (card : ContractRateCard) (category : RevenueCategory) (q : ℤ)
      → is_mobilization category ≡ false
      → IsOurs (priced column_2 report contract actor now card category q)
  unfolding IsOurs priced entry
  priced-IsOurs card category q h = (rw (==_refl report.id) refl, h)

  bill-IsOurs :
      (b : Bool) (c : ContractRateCard) (q : ℤ) (rest : List RevenueSubledgerEntry × ℤ)
      → All IsOurs rest.0
      → All IsOurs (bill column_2 report contract actor now b c q rest).0
  unfolding bill is_mobilization
  bill-IsOurs true c q rest h = h
  bill-IsOurs false c q rest h = (priced-IsOurs c RevenueCategory.drilling_meterage q refl, h)

  bands-IsOurs :
      (iv : DrillingShiftInterval) (cs : List ContractRateCard)
      → All IsOurs (bands column_2 report contract actor now iv cs).0
  unfolding bands
  bands-IsOurs iv [] = tt
  bands-IsOurs iv (c ∷ cs) = bill-IsOurs _ c _ _ (bands-IsOurs iv cs)

  fallback-IsOurs :
      (b : Bool) (iv : DrillingShiftInterval) (cs : List ContractRateCard)
      → All IsOurs (if b then fallback column_2 report contract actor now iv cs else [])
  unfolding fallback is_mobilization
  fallback-IsOurs false iv cs = tt
  fallback-IsOurs true iv [] = tt
  fallback-IsOurs true iv (c ∷ cs) =
      (priced-IsOurs c RevenueCategory.drilling_meterage iv.drilled_metres refl, tt)

  All-if :
      (b : Bool) (es : List RevenueSubledgerEntry)
      → All IsOurs es
      → All IsOurs (if b then [] else es)
  All-if true es h = tt
  All-if false es h = h

  metreage-IsOurs :
      (cs : List ContractRateCard) (ivs : List DrillingShiftInterval)
      → All IsOurs (metreage column_2 report contract actor now cs ivs)
  unfolding metreage interval_revenue
  metreage-IsOurs cs [] = tt
  metreage-IsOurs cs (iv ∷ ivs) =
      All-append IsOurs _ _
        (All-if (leb_ℤ iv.drilled_metres zero_ℤ) _
          (All-append IsOurs _ _ (bands-IsOurs iv cs) (fallback-IsOurs _ iv cs)))
        (metreage-IsOurs cs ivs)

  hourly-IsOurs :
      (category : RevenueCategory) (card : Option ContractRateCard) (hours : ℤ)
      → is_mobilization category ≡ false
      → All IsOurs (hourly column_2 report contract actor now category card hours)
  unfolding hourly
  hourly-IsOurs category none hours h = tt
  hourly-IsOurs category (some card) hours h =
      All-if (leb_ℤ hours zero_ℤ) _ (priced-IsOurs card category hours h, tt)

  work-IsOurs : All IsOurs (work column_2 report contract actor now)
  unfolding work is_mobilization
  work-IsOurs =
      All-append IsOurs _ _
        (All-append IsOurs _ _
          (metreage-IsOurs (keep (has_type RateType.drilling_meter) contract.rate_cards)
            report.intervals)
          (hourly-IsOurs RevenueCategory.standby_time
            (find (has_type RateType.standby_hourly) contract.rate_cards)
            (hours_of TimeCategory.standby report.time_segments) refl))
        (hourly-IsOurs RevenueCategory.daywork
          (find (has_type RateType.daywork_hourly) contract.rate_cards)
          (daywork_hours column_2 report contract actor now) refl)

  abbrev others : List RevenueSubledgerEntry → List RevenueSubledgerEntry
  others = keep (λ e. not (of_shift report.id e))

  others-work : (es : List RevenueSubledgerEntry) → All IsOurs es → others es ≡ []
  unfolding IsOurs
  others-work [] h = refl
  others-work (e ∷ es) h = rw h.0.0 (others-work es h.1)

  others-mobilization :
      (card : Option ContractRateCard) (l : List RevenueSubledgerEntry)
      → others (mobilization column_2 report contract actor now card l) ≡ []
  unfolding mobilization entry
  others-mobilization none l = refl
  others-mobilization (some card) l = elim (Bool-cases (any (is_fee contract.id) l)) [
    | inl e ↦ rw e refl
    | inr e ↦ rw e (rw (==_refl report.id) refl)
  ]

  -- The entries of other reports stay.
  others-posted :
      (l : List RevenueSubledgerEntry)
      → others (posted column_2 report contract actor now l) ≡ others l
  unfolding posted
  others-posted l =
      let earned = work column_2 report contract actor now in
      let card = find (has_type RateType.mobilization_flat) contract.rate_cards in
      let fee = mobilization column_2 report contract actor now card (others l) in
      let p : RevenueSubledgerEntry → Bool = λ e. not (of_shift report.id e) in
      rw
        (
          keep-append p (others l) (earned ++ fee),
          keep-append p earned fee,
          others-work earned work-IsOurs,
          others-mobilization card (others l),
          keep_twice p l,
        )
        (append_nil (others l))

  fees_none : (c : ℕ) (es : List RevenueSubledgerEntry) → All IsOurs es → keep (is_fee c) es ≡ []
  unfolding IsOurs
  fees_none c [] h = refl
  fees_none c (e ∷ es) h = rw h.0.1 (fees_none c es h.1)

  fees : ℕ → List RevenueSubledgerEntry → ℕ
  fees c es = length (keep (is_fee c) es)

  fees-append :
      (c : ℕ) (xs ys : List RevenueSubledgerEntry) → fees c (xs ++ ys) ≡ fees c xs + fees c ys
  unfolding fees
  fees-append c xs ys =
      ap length (keep-append (is_fee c) xs ys)
      ∙ length-append (keep (is_fee c) xs) (keep (is_fee c) ys)

  fees-mobilization :
      (c : ℕ) (card : Option ContractRateCard) (l : List RevenueSubledgerEntry)
      → fees c l ≤ 1
      → fees c l + fees c (mobilization column_2 report contract actor now card l) ≤ 1
  unfolding fees mobilization entry is_mobilization
  fees-mobilization c none l h = omega (arith, h)
  fees-mobilization c (some card) l h = elim (Bool-cases (any (is_fee contract.id) l)) [
    | inl e ↦ rw e (omega (arith, h))
    | inr e ↦ elim (Bool-cases (contract.id == c)) [
      | inl f ↦
          let same : contract.id ≡ c = ground arith in
          let no_fee : keep (is_fee c) l ≡ [] = keep_of_any (is_fee c) l (rw (sym same) e) in
          let none_yet : fees c l ≡ 0 = ap length no_fee in
          let one = length-keep_one (is_fee c) (
            entry report contract actor now card RevenueCategory.mobilization (pos 100)
              card.unit_rate) in
          rw (e, none_yet) (omega (arith, one))
      | inr f ↦ rw (e, f) (omega (arith, h))
    ]
  ]

  fees-others : (c : ℕ) (l : List RevenueSubledgerEntry) → fees c l ≤ 1 → fees c (others l) ≤ 1
  unfolding fees
  fees-others c l h = omega (arith, h, keep_fewer (is_fee c) (λ e. not (of_shift report.id e)) l)

  fees-work : (c : ℕ) → fees c (work column_2 report contract actor now) ≡ 0
  unfolding fees
  fees-work c = ap length (fees_none c (work column_2 report contract actor now) work-IsOurs)

  fees-posted :
      (c : ℕ) (l : List RevenueSubledgerEntry)
      → fees c l ≤ 1
      → fees c (posted column_2 report contract actor now l) ≤ 1
  unfolding posted
  fees-posted c l h =
      let earned = work column_2 report contract actor now in
      let card = find (has_type RateType.mobilization_flat) contract.rate_cards in
      let fee = mobilization column_2 report contract actor now card (others l) in
      let few : fees c (others l) ≤ 1 = fees-others c l h in
      let last = fees-mobilization c card (others l) few in
      rw (fees-append c (others l) (earned ++ fee), fees-append c earned fee, fees-work c)
        (omega (arith, last))

-- The mobilization fees of a contract in the subledger.
abbrev pub fees_of : ℕ → List RevenueSubledgerEntry → ℕ
fees_of c ledger = length (keep (is_fee c) ledger)

module _ (column_2 : Decimal → ℤ) (report : DrillingShiftReport) (actor : Option ℕ) (now : ℕ) where
  fees_under :
      (o : Option ProjectContract) (c : ℕ) (l : List RevenueSubledgerEntry)
      → fees_of c l ≤ 1
      → fees_of c (post_under column_2 o report actor now l) ≤ 1
  unfolding fees post_under
  fees_under none c l h = h
  fees_under (some contract) c l h = fees-posted column_2 report contract actor now c l h

  others_under :
      (o : Option ProjectContract) (l : List RevenueSubledgerEntry)
      → keep (λ e. not (of_shift report.id e)) (post_under column_2 o report actor now l)
        ≡ keep (λ e. not (of_shift report.id e)) l
  unfolding post_under
  others_under none l = refl
  others_under (some contract) l = others-posted column_2 report contract actor now l

  -- What is posted depends on the subledger through the entries of other reports.
  posted_on_others :
      (contract : ProjectContract) (l m : List RevenueSubledgerEntry)
      → keep (λ e. not (of_shift report.id e)) l ≡ keep (λ e. not (of_shift report.id e)) m
      → posted column_2 report contract actor now l ≡ posted column_2 report contract actor now m
  unfolding posted
  posted_on_others contract l m h = rw h refl

  -- Posting the revenue of a shift report, from any contracts, leaves a contract with at most one
  -- mobilization fee, where it had no more before.
  pub fee_once :
      (contracts : List ProjectContract) (c : ℕ) (l : List RevenueSubledgerEntry)
      → fees_of c l ≤ 1
      → fees_of c (post_shift_revenue column_2 contracts report actor now l) ≤ 1
  unfolding post_shift_revenue
  fee_once contracts c l h = fees_under (active_contract report.project_id contracts) c l h

  others_stay :
      (contracts : List ProjectContract) (l : List RevenueSubledgerEntry)
      → keep
          (λ e. not (of_shift report.id e))
          (post_shift_revenue column_2 contracts report actor now l)
        ≡ keep (λ e. not (of_shift report.id e)) l
  unfolding post_shift_revenue
  others_stay contracts l = others_under (active_contract report.project_id contracts) l

module _ (column_2 : Decimal → ℤ) where
  -- Posting the revenue of a shift report leaves the entries of other reports, and replaces what was
  -- posted for it before: where its project has an active contract, the subledger is then the one
  -- that the last posting alone would make, whatever the earlier one was of the report, the
  -- contracts, the actor and the time.
  pub posting_replaces :
      (contracts contracts' : List ProjectContract) (report report' : DrillingShiftReport)
      (actor actor' : Option ℕ) (now now' : ℕ) (contract : ProjectContract)
      (l : List RevenueSubledgerEntry)
      → report.id ≡ report'.id
      → active_contract report'.project_id contracts' ≡ some contract
      → (keep
            (λ e. not (of_shift report.id e))
            (post_shift_revenue column_2 contracts report actor now l)
          ≡ keep (λ e. not (of_shift report.id e)) l)
        × (post_shift_revenue column_2 contracts' report' actor' now'
              (post_shift_revenue column_2 contracts report actor now l)
            ≡ post_shift_revenue column_2 contracts' report' actor' now' l)
  unfolding post_shift_revenue post_under
  posting_replaces contracts contracts' report report' actor actor' now now' contract l same e =
      let before = post_shift_revenue column_2 contracts report actor now l in
      let stay = others_stay column_2 report actor now contracts l in
      (
        stay,
        rw e (
            posted_on_others column_2 report' actor' now' contract before l (
              subst
                (λ id. keep (λ e. not (of_shift id e)) before ≡ keep (λ e. not (of_shift id e)) l)
                same stay)),
      )
