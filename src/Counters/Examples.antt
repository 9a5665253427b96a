-- ===== src/Counters/Examples.antt =====
-- Sample runs of business numbers.
use cestos_oversight.Base.{◌+◌, ◌≡◌, ◌≢◌, refl, [], ◌∷◌, arith}
use cestos_oversight.Counters.{EntityType, Counters, value, business_number, next_business_number}
use cestos_oversight.Counters.Issue.{
  issue_all, next_business_number-fresh, next_business_number-counts, next_business_number-others,
}

abbrev rows : Counters
rows = record { organization_id = 1; entity_type = EntityType.asset; current_value = 41 } ∷ []

next_run : next_business_number 1 EntityType.asset rows ≡ (
  b'A' ∷ b'S' ∷ b'T' ∷ b'-' ∷ b'0' ∷ b'0' ∷ b'0' ∷ b'0' ∷ b'4' ∷ b'2' ∷ [],
  record { organization_id = 1; entity_type = EntityType.asset; current_value = 42 } ∷ [],
)
unfolding next_business_number cestos_oversight.Counters.is_counter
next_run = refl

next_business_number-fresh_example :
    (next_business_number 1 EntityType.supplier (
      issue_all
        ((2, EntityType.asset) ∷ (1, EntityType.supplier) ∷ [])
        (next_business_number 1 EntityType.asset rows).1)).0
    ≢ (next_business_number 1 EntityType.asset rows).0
next_business_number-fresh_example =
    next_business_number-fresh 1 EntityType.asset EntityType.supplier
      ((2, EntityType.asset) ∷ (1, EntityType.supplier) ∷ []) rows

next_business_number-counts_example :
    ((next_business_number 1 EntityType.asset rows).0
      ≡ business_number EntityType.asset (value 1 EntityType.asset rows + 1))
    × (value 1 EntityType.asset (next_business_number 1 EntityType.asset rows).1
        ≡ value 1 EntityType.asset rows + 1)
next_business_number-counts_example = next_business_number-counts 1 EntityType.asset rows

next_business_number-others_example :
    value 2 EntityType.asset (next_business_number 1 EntityType.asset rows).1
    ≡ value 2 EntityType.asset rows
next_business_number-others_example =
    next_business_number-others 1 2 EntityType.asset EntityType.asset rows (λ same. omega arith)
