-- ===== src/Commercial/Revenue.antt =====
-- `calculate_and_post_shift_revenue` (app/services/commercial.py).
use cestos_oversight.Base.{
  ℕ, Option, none, some, List, [], ◌∷◌, ◌++◌, Bool, true, false, not, ◌&&◌, ◌||◌, ◌==◌, ltb, is_set,
  get_or, same_id, if◌then◌else◌, find, any, keep,
}
use cestos_oversight.Base.Int.{ℤ, pos, zero_ℤ, ◌+ℤ◌, ◌-ℤ◌, ◌=ℤ◌, leb_ℤ, max_ℤ, min_ℤ}
use cestos_oversight.Base.Decimal.{Decimal, scaled, ◌*ᵈ◌}
use cestos_oversight.Base.Text.{Text, lower, ◌=ᵗ◌}
use cestos_oversight.Drilling.Model.{
  TimeCategory, DrillingShiftInterval, DrillingShiftTimeSegment, DrillingShiftReport,
}
use cestos_oversight.Commercial.Model.{
  ContractStatus, RateType, RevenueCategory, ContractRateCard, ProjectContract,
  RevenueSubledgerEntry,
}

-- The contract that applies: the active one of the project that starts last. Of two that start on
-- the same day the database may return either; here it is the first row.
unfoldable pub is_active : ContractStatus → Bool
is_active ContractStatus.active = true
is_active _ = false

abbrev pub applies : ℕ → ProjectContract → Bool
applies project c = (c.project_id == project) && is_active c.status && not (is_set c.archived_at)

unfoldable pub later_of : Option ProjectContract → ProjectContract → ProjectContract
later_of none c = c
later_of (some d) c = if ltb c.start_date d.start_date then d else c

unfoldable pub active_contract : ℕ → List ProjectContract → Option ProjectContract
unfolding later_of is_active
active_contract project [] = none
active_contract project (c ∷ cs) =
    let rest = active_contract project cs in
    if applies project c then some (later_of rest c) else rest

unfoldable pub has_type : RateType → ContractRateCard → Bool
has_type RateType.drilling_meter c = elim c.rate_type [ RateType.drilling_meter ↦ true | _ ↦ false ]
has_type RateType.standby_hourly c = elim c.rate_type [ RateType.standby_hourly ↦ true | _ ↦ false ]
has_type RateType.daywork_hourly c = elim c.rate_type [ RateType.daywork_hourly ↦ true | _ ↦ false ]
has_type RateType.mobilization_flat c = elim c.rate_type [
  | RateType.mobilization_flat ↦ true
  | _ ↦ false
]
has_type RateType.demobilization_flat c = elim c.rate_type [
  | RateType.demobilization_flat ↦ true
  | _ ↦ false
]

-- Both name a drilling method, and not the same one.
unfoldable pub other_method : Option Text → Option Text → Bool
unfolding lower
other_method none iv = false
other_method (some m) none = false
other_method (some []) (some n) = false
other_method (some (a ∷ m)) (some []) = false
other_method (some (a ∷ m)) (some (b ∷ n)) = not (lower (a ∷ m) =ᵗ lower (b ∷ n))

abbrev pub band_from : ContractRateCard → ℤ
band_from c = get_or c.depth_from_m zero_ℤ

abbrev pub band_to : ContractRateCard → ℤ
band_to c = get_or c.depth_to_m (pos 99999900)

-- The metres of an interval inside the band of a card.
unfoldable pub overlap : DrillingShiftInterval → ContractRateCard → ℤ
unfolding max_ℤ min_ℤ ◌-ℤ◌
overlap iv c = max_ℤ zero_ℤ (min_ℤ iv.to_depth_m (band_to c) -ℤ max_ℤ iv.from_depth_m (band_from c))

-- The hours of the segments of a category.
unfoldable pub is_category : TimeCategory → TimeCategory → Bool
is_category TimeCategory.productive TimeCategory.productive = true
is_category TimeCategory.standby TimeCategory.standby = true
is_category TimeCategory.maintenance TimeCategory.maintenance = true
is_category TimeCategory.non_productive TimeCategory.non_productive = true
is_category _ _ = false

unfoldable pub hours_of : TimeCategory → List DrillingShiftTimeSegment → ℤ
unfolding is_category ◌+ℤ◌
hours_of k [] = zero_ℤ
hours_of k (s ∷ ss) = if is_category k s.category then s.hours +ℤ hours_of k ss else hours_of k ss

unfoldable pub is_mobilization : RevenueCategory → Bool
is_mobilization RevenueCategory.mobilization = true
is_mobilization _ = false

-- The entry that a report posts for a contract and a card.
unfoldable pub entry :
    DrillingShiftReport
    → ProjectContract
    → Option ℕ
    → ℕ
    → ContractRateCard
    → RevenueCategory
    → ℤ
    → ℤ
    → RevenueSubledgerEntry
entry report contract actor now card category quantity total = record {
  project_id = report.project_id;
  rig_id = some report.rig_id;
  shift_report_id = some report.id;
  contract_id = some contract.id;
  rate_card_id = some card.id;
  revenue_category = category;
  quantity = quantity;
  unit_rate = card.unit_rate;
  total_revenue = total;
  currency = contract.currency;
  total_revenue_base = total;
  posted_at = now;
  created_by_id = actor;
}

abbrev pub of_shift : ℕ → RevenueSubledgerEntry → Bool
of_shift id e = same_id e.shift_report_id (some id)

abbrev pub is_fee : ℕ → RevenueSubledgerEntry → Bool
is_fee contract e = is_mobilization e.revenue_category && same_id e.contract_id (some contract)

module _ (column_2 : Decimal → ℤ) (report : DrillingShiftReport) (contract : ProjectContract)
    (actor : Option ℕ) (now : ℕ) where
  unfoldable pub priced : ContractRateCard → RevenueCategory → ℤ → RevenueSubledgerEntry
  unfolding entry
  priced card category quantity =
      entry report contract actor now card category quantity
        (column_2 (scaled 2 quantity *ᵈ scaled 2 card.unit_rate))

  -- A card that is passed over, or billed for its metres.
  unfoldable pub bill :
      Bool → ContractRateCard → ℤ → List RevenueSubledgerEntry × ℤ → List RevenueSubledgerEntry × ℤ
  unfolding priced ◌+ℤ◌
  bill true c q rest = rest
  bill false c q rest = (priced c RevenueCategory.drilling_meterage q ∷ rest.0, q +ℤ rest.1)

  -- The entries of an interval, one for each band that it meets, and the metres they bill.
  unfoldable pub bands :
      DrillingShiftInterval → List ContractRateCard → List RevenueSubledgerEntry × ℤ
  unfolding bill overlap other_method
  bands iv [] = ([], zero_ℤ)
  bands iv (c ∷ cs) =
      let q = overlap iv c in
      bill (other_method c.drilling_method iv.drilling_method || leb_ℤ q zero_ℤ) c q (bands iv cs)

  -- The first card, where no band was met.
  unfoldable pub fallback :
      DrillingShiftInterval → List ContractRateCard → List RevenueSubledgerEntry
  unfolding priced
  fallback iv [] = []
  fallback iv (c ∷ cs) = priced c RevenueCategory.drilling_meterage iv.drilled_metres ∷ []

  unfoldable pub interval_revenue :
      List ContractRateCard → DrillingShiftInterval → List RevenueSubledgerEntry
  unfolding bands fallback
  interval_revenue cards iv =
      let billed = bands iv cards in
      if leb_ℤ iv.drilled_metres zero_ℤ
      then []
      else billed.0 ++ (if billed.1 =ℤ zero_ℤ then fallback iv cards else [])

  unfoldable pub metreage :
      List ContractRateCard → List DrillingShiftInterval → List RevenueSubledgerEntry
  unfolding interval_revenue
  metreage cards [] = []
  metreage cards (iv ∷ ivs) = interval_revenue cards iv ++ metreage cards ivs

  -- An entry for hours, where there are any. A report has no hours of its own for standby.
  unfoldable pub hourly : RevenueCategory → Option ContractRateCard → ℤ → List RevenueSubledgerEntry
  unfolding priced
  hourly category none hours = []
  hourly category (some card) hours =
      if leb_ℤ hours zero_ℤ then [] else priced card category hours ∷ []

  abbrev pub daywork_hours : ℤ
  daywork_hours =
      let hours = hours_of TimeCategory.productive report.time_segments in
      if hours =ℤ zero_ℤ then report.total_productive_hours else hours

  -- The mobilization fee, which a contract is charged once.
  unfoldable pub mobilization :
      Option ContractRateCard → List RevenueSubledgerEntry → List RevenueSubledgerEntry
  unfolding entry is_mobilization
  mobilization none ledger = []
  mobilization (some card) ledger =
      if any (is_fee contract.id) ledger
      then []
      else entry report contract actor now card RevenueCategory.mobilization (pos 100)
          card.unit_rate
        ∷ []

  -- What the work of the shift earns.
  unfoldable pub work : List RevenueSubledgerEntry
  unfolding metreage hourly has_type hours_of
  work =
      metreage (keep (has_type RateType.drilling_meter) contract.rate_cards) report.intervals
      ++ hourly RevenueCategory.standby_time
          (find (has_type RateType.standby_hourly) contract.rate_cards)
          (hours_of TimeCategory.standby report.time_segments)
      ++ hourly RevenueCategory.daywork
          (find (has_type RateType.daywork_hourly) contract.rate_cards) daywork_hours

  -- The subledger with the entries of the report replaced by new ones.
  unfoldable pub posted : List RevenueSubledgerEntry → List RevenueSubledgerEntry
  posted ledger =
      let others = keep (λ e. not (of_shift report.id e)) ledger in
      others
      ++ (work
          ++ mobilization (find (has_type RateType.mobilization_flat) contract.rate_cards) others)

module _ (column_2 : Decimal → ℤ) where
  -- Nothing is posted, and nothing cleared, where no contract is active.
  unfoldable pub post_under :
      Option ProjectContract
      → DrillingShiftReport
      → Option ℕ
      → ℕ
      → List RevenueSubledgerEntry
      → List RevenueSubledgerEntry
  unfolding posted
  post_under none report actor now ledger = ledger
  post_under (some contract) report actor now ledger =
      posted column_2 report contract actor now ledger

  -- `calculate_and_post_shift_revenue`
  unfoldable pub post_shift_revenue :
      List ProjectContract
      → DrillingShiftReport
      → Option ℕ
      → ℕ
      → List RevenueSubledgerEntry
      → List RevenueSubledgerEntry
  unfolding active_contract post_under
  post_shift_revenue contracts report actor now ledger =
      post_under (active_contract report.project_id contracts) report actor now ledger
