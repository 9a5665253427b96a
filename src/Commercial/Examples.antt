-- ===== src/Commercial/Examples.antt =====
-- Sample postings of revenue.
use cestos_oversight.Base.{◌≡◌, refl, none, some, List, [], ◌∷◌, not, keep, arith}
use cestos_oversight.Base.Int.{pos, ◌≤ℤ◌, ◌-ℤ◌}
use cestos_oversight.Commercial.Model.{RevenueSubledgerEntry}
use cestos_oversight.Commercial.Revenue.{
  active_contract, other_method, of_shift, interval_revenue, post_shift_revenue,
}
use cestos_oversight.Commercial.Billing.{
  Ascending, Covers, IsMeasured, total_quantity, metres_billed, billed_at_most,
}
use cestos_oversight.Commercial.Reposting.{posting_replaces}
use cestos_oversight.Commercial.Samples.{column, interval, report, card, upper, lower, contract}

measured : IsMeasured column report contract none 90 interval
unfolding ◌-ℤ◌
measured = record { ordered = omega arith; drilled = refl }

bands-Covers : Covers interval (pos 5000) (pos 0) (upper ∷ lower ∷ [])
unfolding other_method
bands-Covers = Covers.next refl (omega arith) (Covers.next refl (omega arith) Covers.none)

-- 10 metres in the upper band and 15 in the lower one.
metres_billed_example :
    total_quantity (interval_revenue column report contract none 90 (upper ∷ lower ∷ []) interval)
    ≡ pos 2500
metres_billed_example =
    metres_billed column report contract none 90 interval (pos 0) (pos 5000) (upper ∷ lower ∷ [])
      measured bands-Covers (omega arith) (omega arith)

gap-Ascending : Ascending interval (pos 0) (card 7 (pos 100) (pos 300) ∷ lower ∷ [])
unfolding other_method
gap-Ascending =
    Ascending.next refl (omega arith) (omega arith)
      (Ascending.next refl (omega arith) (omega arith) Ascending.none)

-- Bands with a gap.
billed_at_most_example :
    total_quantity (
      interval_revenue column report contract none 90
        (card 7 (pos 100) (pos 300) ∷ lower ∷ [])
        interval)
    ≤ℤ pos 2500
billed_at_most_example =
    billed_at_most column report contract none 90 interval (pos 0)
      (card 7 (pos 100) (pos 300) ∷ lower ∷ []) measured gap-Ascending

is_active_now : active_contract 3 (contract ∷ []) ≡ some contract
unfolding active_contract
is_active_now = refl

abbrev first_posting : List RevenueSubledgerEntry
first_posting = post_shift_revenue column (contract ∷ []) report none 90 []

-- The same report, posted again later.
posting_replaces_example :
    (keep (λ e. not (of_shift 1 e)) first_posting ≡ keep (λ e. not (of_shift 1 e)) [])
    × (post_shift_revenue column (contract ∷ []) report none 95 first_posting
        ≡ post_shift_revenue column (contract ∷ []) report none 95 [])
posting_replaces_example =
    posting_replaces column (contract ∷ []) (contract ∷ []) report report none none 90 95 contract
      [] refl is_active_now
