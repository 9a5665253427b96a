-- ===== src/Counters/Names.antt =====
-- Business numbers of different entity types, or of different values, are different texts.
use cestos_oversight.Base.{ℕ, ◌+◌, ◌*◌, ◌≡◌, refl, sym, ap, ◌∙◌, [], ◌∷◌, ◌==◌, if◌then◌else◌}
use cestos_oversight.Base.Text.{Text}
use cestos_oversight.Counters.Format.{padded, parse_number, parse_number-padded}
use cestos_oversight.Counters.{EntityType, prefix, width, business_number, place}

-- The text up to the first dash, and the text behind it.
before_dash : Text → Text
before_dash [] = []
before_dash (c ∷ s) = if c == b'-' then [] else c ∷ before_dash s

pub after_dash : Text → Text
after_dash [] = []
after_dash (c ∷ s) = if c == b'-' then s else after_dash s

pub after_dash-business_number :
    (kind : EntityType) (n : ℕ) → after_dash (business_number kind n) ≡ padded width n
unfolding after_dash business_number prefix
after_dash-business_number EntityType.employee n = refl
after_dash-business_number EntityType.client n = refl
after_dash-business_number EntityType.project n = refl
after_dash-business_number EntityType.location n = refl
after_dash-business_number EntityType.assignment n = refl
after_dash-business_number EntityType.asset n = refl
after_dash-business_number EntityType.inventory_item n = refl
after_dash-business_number EntityType.inventory_store n = refl
after_dash-business_number EntityType.inventory_receipt n = refl
after_dash-business_number EntityType.inventory_issue n = refl
after_dash-business_number EntityType.inventory_return n = refl
after_dash-business_number EntityType.inventory_transfer n = refl
after_dash-business_number EntityType.inventory_request n = refl
after_dash-business_number EntityType.inventory_adjustment n = refl
after_dash-business_number EntityType.inventory_stock_count n = refl
after_dash-business_number EntityType.inventory_transaction n = refl
after_dash-business_number EntityType.inventory_reservation n = refl
after_dash-business_number EntityType.drilling_program n = refl
after_dash-business_number EntityType.drilling_hole n = refl
after_dash-business_number EntityType.drilling_shift n = refl
after_dash-business_number EntityType.maintenance_work_order n = refl
after_dash-business_number EntityType.hse_incident n = refl
after_dash-business_number EntityType.hse_corrective_action n = refl
after_dash-business_number EntityType.purchase_order n = refl
after_dash-business_number EntityType.supplier n = refl
after_dash-business_number EntityType.supervisor_scorecard n = refl
after_dash-business_number EntityType.commercial_opportunity n = refl

before_dash-business_number :
    (kind : EntityType) (n : ℕ) → before_dash (business_number kind n) ≡ prefix kind
unfolding before_dash business_number prefix
before_dash-business_number EntityType.employee n = refl
before_dash-business_number EntityType.client n = refl
before_dash-business_number EntityType.project n = refl
before_dash-business_number EntityType.location n = refl
before_dash-business_number EntityType.assignment n = refl
before_dash-business_number EntityType.asset n = refl
before_dash-business_number EntityType.inventory_item n = refl
before_dash-business_number EntityType.inventory_store n = refl
before_dash-business_number EntityType.inventory_receipt n = refl
before_dash-business_number EntityType.inventory_issue n = refl
before_dash-business_number EntityType.inventory_return n = refl
before_dash-business_number EntityType.inventory_transfer n = refl
before_dash-business_number EntityType.inventory_request n = refl
before_dash-business_number EntityType.inventory_adjustment n = refl
before_dash-business_number EntityType.inventory_stock_count n = refl
before_dash-business_number EntityType.inventory_transaction n = refl
before_dash-business_number EntityType.inventory_reservation n = refl
before_dash-business_number EntityType.drilling_program n = refl
before_dash-business_number EntityType.drilling_hole n = refl
before_dash-business_number EntityType.drilling_shift n = refl
before_dash-business_number EntityType.maintenance_work_order n = refl
before_dash-business_number EntityType.hse_incident n = refl
before_dash-business_number EntityType.hse_corrective_action n = refl
before_dash-business_number EntityType.purchase_order n = refl
before_dash-business_number EntityType.supplier n = refl
before_dash-business_number EntityType.supervisor_scorecard n = refl
before_dash-business_number EntityType.commercial_opportunity n = refl

-- A number in base 256 that tells the prefixes apart.
prefix_code : Text → ℕ
prefix_code [] = 0
prefix_code (c ∷ s) = c + 256 * prefix_code s

place_of_code : ℕ → ℕ
place_of_code n =
    if n == 5262661
    then 0
    else if n == 4803651
    then 1
    else if n == 4870736
    then 2
    else if n == 1163151699
    then 3
    else if n == 5133121
    then 4
    else if n == 5526337
    then 5
    else if n == 5067849
    then 6
    else if n == 5395539
    then 7
    else if n == 5132871
    then 8
    else if n == 5460809
    then 9
    else if n == 5133394
    then 10
    else if n == 4608596
    then 11
    else if n == 5326162
    then 12
    else if n == 4867137
    then 13
    else if n == 5525059
    then 14
    else if n == 5656137
    then 15
    else if n == 5657426
    then 16
    else if n == 4673604
    then 17
    else if n == 4999236
    then 18
    else if n == 5395268
    then 19
    else if n == 5199693
    then 20
    else if n == 4543304
    then 21
    else if n == 5259587
    then 22
    else if n == 20304
    then 23
    else if n == 5264723
    then 24
    else if n == 5391187
    then 25
    else if n == 5263439
    then 26
    else 27

place_of_prefix : (kind : EntityType) → place_of_code (prefix_code (prefix kind)) ≡ place kind
unfolding place_of_code prefix_code prefix place
place_of_prefix EntityType.employee = refl
place_of_prefix EntityType.client = refl
place_of_prefix EntityType.project = refl
place_of_prefix EntityType.location = refl
place_of_prefix EntityType.assignment = refl
place_of_prefix EntityType.asset = refl
place_of_prefix EntityType.inventory_item = refl
place_of_prefix EntityType.inventory_store = refl
place_of_prefix EntityType.inventory_receipt = refl
place_of_prefix EntityType.inventory_issue = refl
place_of_prefix EntityType.inventory_return = refl
place_of_prefix EntityType.inventory_transfer = refl
place_of_prefix EntityType.inventory_request = refl
place_of_prefix EntityType.inventory_adjustment = refl
place_of_prefix EntityType.inventory_stock_count = refl
place_of_prefix EntityType.inventory_transaction = refl
place_of_prefix EntityType.inventory_reservation = refl
place_of_prefix EntityType.drilling_program = refl
place_of_prefix EntityType.drilling_hole = refl
place_of_prefix EntityType.drilling_shift = refl
place_of_prefix EntityType.maintenance_work_order = refl
place_of_prefix EntityType.hse_incident = refl
place_of_prefix EntityType.hse_corrective_action = refl
place_of_prefix EntityType.purchase_order = refl
place_of_prefix EntityType.supplier = refl
place_of_prefix EntityType.supervisor_scorecard = refl
place_of_prefix EntityType.commercial_opportunity = refl

-- A printed number determines the value behind its dash.
pub business_number-value :
    (kind kind' : EntityType) (n n' : ℕ)
    → business_number kind n ≡ business_number kind' n'
    → n ≡ n'
business_number-value kind kind' n n' e =
    sym (parse_number-padded width n)
    ∙ ap parse_number (
        sym (after_dash-business_number kind n)
        ∙ ap after_dash e
        ∙ after_dash-business_number kind' n')
    ∙ parse_number-padded width n'

-- A printed number determines its entity type.
pub business_number-place :
    (kind kind' : EntityType) (n n' : ℕ)
    → business_number kind n ≡ business_number kind' n'
    → place kind ≡ place kind'
business_number-place kind kind' n n' e =
    sym (place_of_prefix kind)
    ∙ ap (λ s. place_of_code (prefix_code s))
        (sym (before_dash-business_number kind n)
          ∙ ap before_dash e
          ∙ before_dash-business_number kind' n')
    ∙ place_of_prefix kind'
