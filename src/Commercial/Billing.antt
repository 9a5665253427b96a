-- ===== src/Commercial/Billing.antt =====
-- The metres that an interval bills over the depth bands of a contract
-- (`calculate_and_post_shift_revenue`, app/services/commercial.py).
use cestos_oversight.Base.{
  ◌≡◌, refl, ap, ◌∙◌, sym, List, [], ◌∷◌, ◌++◌, Bool, true, false, ◌||◌, arith, if◌then◌else◌, ℕ,
  Option,
}
use cestos_oversight.Base.Int.{
  ℤ, zero_ℤ, pos_part, neg_part, ◌+ℤ◌, ◌-ℤ◌, ◌≤ℤ◌, ◌=ℤ◌, leb_ℤ, max_ℤ, min_ℤ, int_laws, +ℤ_parts,
  zero_+ℤ, +ℤ_zero,
}
use cestos_oversight.Base.Decimal.{Decimal}
use cestos_oversight.Drilling.Model.{DrillingShiftInterval, DrillingShiftReport}
use cestos_oversight.Commercial.Model.{ContractRateCard, ProjectContract, RevenueSubledgerEntry}
use cestos_oversight.Commercial.Depths.{
  within, within_split, within_empty, within_all, deeper, deeper_split, deeper_le, max_zero_nonneg,
  sub_nonneg,
}
use cestos_oversight.Commercial.Revenue.{
  band_from, band_to, overlap, other_method, entry, priced, bill, bands, fallback, interval_revenue,
}

-- The metres of a list of entries.
unfoldable pub total_quantity : List RevenueSubledgerEntry → ℤ
total_quantity [] = zero_ℤ
total_quantity (e ∷ es) = e.quantity +ℤ total_quantity es

-- The cards bill the method of the interval, and their bands follow one another from `lo` without
-- crossing.
pub data Ascending (iv : DrillingShiftInterval) : ℤ → List ContractRateCard → Type 0 where
  none : {lo : ℤ} → Ascending iv lo []
  next :
      {lo : ℤ} {c : ContractRateCard} {cs : List ContractRateCard}
      → other_method c.drilling_method iv.drilling_method ≡ false
      → lo ≤ℤ band_from c
      → band_from c ≤ℤ band_to c
      → Ascending iv (band_to c) cs
      → Ascending iv lo (c ∷ cs)

-- The bands leave no depth out from `lo` to `hi`.
pub data Covers (iv : DrillingShiftInterval) (hi : ℤ) : ℤ → List ContractRateCard → Type 0 where
  none : Covers iv hi hi []
  next :
      {c : ContractRateCard} {cs : List ContractRateCard}
      → other_method c.drilling_method iv.drilling_method ≡ false
      → band_from c ≤ℤ band_to c
      → Covers iv hi (band_to c) cs
      → Covers iv hi (band_from c) (c ∷ cs)

total_quantity-append :
    (xs ys : List RevenueSubledgerEntry)
    → total_quantity (xs ++ ys) ≡ total_quantity xs +ℤ total_quantity ys
unfolding total_quantity
total_quantity-append [] ys = omega int_laws
total_quantity-append (x ∷ xs) ys = rw (total_quantity-append xs ys) (omega int_laws)

-- What is billed of an interval: nothing, the bands, or the bands and the fallback.
total_quantity-chosen :
    (idle missed : Bool) (xs ys : List RevenueSubledgerEntry) (n : ℤ)
    → total_quantity xs ≡ n
    → total_quantity (if idle then [] else xs ++ (if missed then ys else []))
      ≡ (if idle then zero_ℤ else if missed then n +ℤ total_quantity ys else n)
unfolding total_quantity
total_quantity-chosen true missed xs ys n h = refl
total_quantity-chosen false true xs ys n h =
    total_quantity-append xs ys ∙ ap (λ m. m +ℤ total_quantity ys) h
total_quantity-chosen false false xs ys n h =
    total_quantity-append xs [] ∙ +ℤ_zero (total_quantity xs) ∙ h

module _ (column_2 : Decimal → ℤ) (report : DrillingShiftReport) (contract : ProjectContract)
    (actor : Option ℕ) (now : ℕ) (iv : DrillingShiftInterval) where
  abbrev billed : List ContractRateCard → ℤ
  billed cs = (bands column_2 report contract actor now iv cs).1

  total_quantity-bill :
      (b : Bool) (c : ContractRateCard) (q : ℤ) (rest : List RevenueSubledgerEntry × ℤ)
      → total_quantity rest.0 ≡ rest.1
      → total_quantity (bill column_2 report contract actor now b c q rest).0
        ≡ (bill column_2 report contract actor now b c q rest).1
  unfolding total_quantity bill priced entry
  total_quantity-bill true c q rest h = h
  total_quantity-bill false c q rest h = ap (λ n. q +ℤ n) h

  total_quantity-bands :
      (cs : List ContractRateCard)
      → total_quantity (bands column_2 report contract actor now iv cs).0 ≡ billed cs
  unfolding total_quantity bands
  total_quantity-bands [] = refl
  total_quantity-bands (c ∷ cs) = total_quantity-bill _ c _ _ (total_quantity-bands cs)

  bill_sum :
      (b : Bool) (c : ContractRateCard) (q : ℤ) (rest : List RevenueSubledgerEntry × ℤ)
      → neg_part q ≡ 0
      → leb_ℤ q zero_ℤ ≡ b
      → (bill column_2 report contract actor now b c q rest).1 ≡ q +ℤ rest.1
  unfolding bill
  bill_sum true c q rest n h =
      let empty : q ≡ zero_ℤ = ground arith in rw empty (sym (zero_+ℤ rest.1))
  bill_sum false c q rest n h = refl

  overlap_nonneg : (c : ContractRateCard) → neg_part (overlap iv c) ≡ 0
  unfolding overlap
  overlap_nonneg c =
      max_zero_nonneg (min_ℤ iv.to_depth_m (band_to c) -ℤ max_ℤ iv.from_depth_m (band_from c))

  billed_next :
      (c : ContractRateCard) (cs : List ContractRateCard)
      → other_method c.drilling_method iv.drilling_method ≡ false
      → billed (c ∷ cs) ≡ overlap iv c +ℤ billed cs
  unfolding bands
  billed_next c cs h =
      bill_sum (other_method c.drilling_method iv.drilling_method || leb_ℤ (overlap iv c) zero_ℤ) c
        (overlap iv c) (bands column_2 report contract actor now iv cs) (overlap_nonneg c)
        (rw h refl)

  -- An interval bills its part between the ends of bands that leave no depth out.
  billed_covered :
      (lo hi : ℤ) (cs : List ContractRateCard)
      → Covers iv hi lo cs
      → (billed cs ≡ within iv.from_depth_m iv.to_depth_m lo hi) × (lo ≤ℤ hi)
  unfolding overlap bands
  billed_covered lo _ [] Covers.none =
      (sym (within_empty iv.from_depth_m iv.to_depth_m lo), omega arith)
  billed_covered lo hi (c ∷ cs) (Covers.next same order rest) =
      let later = billed_covered (band_to c) hi cs rest in
      (
        billed_next c cs same
            ∙ ap (λ n. overlap iv c +ℤ n) later.0
            ∙ within_split iv.from_depth_m iv.to_depth_m (band_from c) (band_to c) hi order later.1,
        omega (arith, order, later.1),
      )

  billed_ascending :
      (lo : ℤ) (cs : List ContractRateCard)
      → Ascending iv lo cs
      → billed cs ≤ℤ deeper iv.from_depth_m iv.to_depth_m lo
  unfolding overlap bands
  billed_ascending lo [] Ascending.none =
      let n = max_zero_nonneg (iv.to_depth_m -ℤ max_ℤ iv.from_depth_m lo) in omega (arith, n)
  billed_ascending lo (c ∷ cs) (Ascending.next same above order rest) =
      let later = billed_ascending (band_to c) cs rest in
      let share =
        deeper_split iv.from_depth_m iv.to_depth_m lo (band_from c) (band_to c) above order in
      rw (billed_next c cs same) (
        omega (
          arith,
          later,
          share,
          +ℤ_parts (overlap iv c) (billed cs),
          +ℤ_parts (overlap iv c) (deeper iv.from_depth_m iv.to_depth_m (band_to c)),
        ))

  -- The drilled metres of an interval are its length.
  pub record IsMeasured : Type 0 where
    pub ordered : iv.from_depth_m ≤ℤ iv.to_depth_m
    pub drilled : iv.drilled_metres ≡ iv.to_depth_m -ℤ iv.from_depth_m

  abbrev billed_metres : List ContractRateCard → ℤ
  billed_metres cs = total_quantity (interval_revenue column_2 report contract actor now cs iv)

  drilled_nonneg : IsMeasured → neg_part iv.drilled_metres ≡ 0
  drilled_nonneg m = rw m.drilled (sub_nonneg iv.from_depth_m iv.to_depth_m m.ordered)

  interval_total :
      (cs : List ContractRateCard)
      → billed_metres cs ≡ (
          if leb_ℤ iv.drilled_metres zero_ℤ
          then zero_ℤ
          else if billed cs =ℤ zero_ℤ
          then billed cs +ℤ total_quantity (fallback column_2 report contract actor now iv cs)
          else billed cs)
  unfolding interval_revenue
  interval_total cs =
      total_quantity-chosen (leb_ℤ iv.drilled_metres zero_ℤ) (billed cs =ℤ zero_ℤ)
        (bands column_2 report contract actor now iv cs).0
        (fallback column_2 report contract actor now iv cs) (billed cs) (total_quantity-bands cs)

  fallback_le :
      (cs : List ContractRateCard)
      → neg_part iv.drilled_metres ≡ 0
      → total_quantity (fallback column_2 report contract actor now iv cs) ≤ℤ iv.drilled_metres
  unfolding total_quantity fallback priced entry
  fallback_le [] n = omega (arith, n)
  fallback_le (c ∷ cs) n = rw (+ℤ_zero iv.drilled_metres) (omega arith)

  -- An interval between the ends of depth bands that leave no depth out and cross nowhere, of cards
  -- for its drilling method, is billed for each metre that was drilled, once.
  pub metres_billed :
      (lo hi : ℤ) (cs : List ContractRateCard)
      → IsMeasured
      → Covers iv hi lo cs
      → lo ≤ℤ iv.from_depth_m
      → iv.to_depth_m ≤ℤ hi
      → billed_metres cs ≡ iv.drilled_metres
  metres_billed lo hi cs m covers low high =
      let all =
        (billed_covered lo hi cs covers).0
        ∙ within_all iv.from_depth_m iv.to_depth_m lo hi low m.ordered high
        ∙ sym m.drilled in
      let some_metres = drilled_nonneg m in interval_total cs ∙ rw all (ground arith)

  -- Of depth bands in order that cross nowhere, of cards for its drilling method, an interval is
  -- billed for no more metres than were drilled, with the fallback of an interval outside every band.
  pub billed_at_most :
      (lo : ℤ) (cs : List ContractRateCard)
      → IsMeasured
      → Ascending iv lo cs
      → billed_metres cs ≤ℤ iv.drilled_metres
  billed_at_most lo cs m ascends =
      let n = drilled_nonneg m in
      let least = fallback_le cs n in
      let rest = total_quantity (fallback column_2 report contract actor now iv cs) in
      let most : billed cs ≤ℤ iv.drilled_metres = omega (
        arith,
        billed_ascending lo cs ascends,
        deeper_le iv.from_depth_m iv.to_depth_m lo m.ordered,
        ap pos_part m.drilled,
        ap neg_part m.drilled,
      ) in
      rw (interval_total cs) (ground (arith, +ℤ_parts (billed cs) rest))
