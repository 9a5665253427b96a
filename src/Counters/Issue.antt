-- ===== src/Counters/Issue.antt =====
-- Numbers that are issued one after another (`next_business_number` of app/services/counters.py).
use cestos_oversight.Base.{ℕ, ◌+◌, ◌≤◌, ◌≡◌, ◌≢◌, refl, List, [], ◌∷◌, true, ◌&&◌, ◌==◌, arith}
use cestos_oversight.Counters.{
  EntityType, place, Counter, Counters, is_counter, value, increment, business_number,
  next_business_number,
}
use cestos_oversight.Counters.Names.{business_number-value, business_number-place}

module _ (org : ℕ) (kind : EntityType) where
  is_counter-bumped :
      (o : ℕ) (k : EntityType) (c : Counter) (n : ℕ)
      → is_counter o k (record c { current_value = n }) ≡ is_counter o k c
  unfolding is_counter
  is_counter-bumped o k c n = refl

  is_counter-new :
      (n : ℕ)
      → is_counter org kind
          (record { organization_id = org; entity_type = kind; current_value = n })
        ≡ true
  unfolding is_counter
  is_counter-new n = new (place kind)
    where
      new : (p : ℕ) → ((org == org) && (p == p)) ≡ true
      new p = ground arith

  -- Rows that two keys share have the same key.
  is_counter-shared :
      (o : ℕ) (k : EntityType) (c : Counter)
      → is_counter org kind c ≡ true
      → is_counter o k c ≡ true
      → (o ≡ org) × (place k ≡ place kind)
  unfolding is_counter
  is_counter-shared o k c = shared (place c.entity_type) (place kind) (place k)
    where
      shared :
          (p q r : ℕ)
          → ((c.organization_id == org) && (p == q)) ≡ true
          → ((c.organization_id == o) && (p == r)) ≡ true
          → (o ≡ org) × (r ≡ q)
      shared p q r h h' = ground arith

  -- The counter that is incremented grows by one.
  pub value-increment_self :
      (rows : Counters) → value org kind (increment org kind rows) ≡ value org kind rows + 1
  unfolding value increment
  value-increment_self [] = ground (arith, is_counter-new 1)
  value-increment_self (c ∷ rows) =
      ground (arith, value-increment_self rows, is_counter-bumped org kind c (c.current_value + 1))

  -- Every other counter stays.
  pub value-increment_ne :
      (o : ℕ) (k : EntityType) (rows : Counters)
      → ((o ≡ org) × (place k ≡ place kind) → ⊥)
      → value o k (increment org kind rows) ≡ value o k rows
  unfolding value increment
  value-increment_ne o k [] ne = ground (
    arith,
    is_counter-new 1,
    is_counter-shared o k (record { organization_id = org; entity_type = kind; current_value = 1 }),
  )
  value-increment_ne o k (c ∷ rows) ne = ground (
    arith,
    value-increment_ne o k rows ne,
    is_counter-bumped o k c (c.current_value + 1),
    is_counter-shared o k c,
  )

-- The numbers of a run of calls, in order, and the counters behind it.
abbrev pub Request : Type 0
Request = ℕ × EntityType

pub issue_all : List Request → Counters → Counters
unfolding next_business_number
issue_all [] rows = rows
issue_all ((o, k) ∷ rs) rows = issue_all rs (next_business_number o k rows).1

value-le-increment :
    (o org : ℕ) (k kind : EntityType) (rows : Counters)
    → value o k rows ≤ value o k (increment org kind rows)
unfolding value increment
value-le-increment o org k kind [] = omega arith
value-le-increment o org k kind (c ∷ rows) = ground (
  arith,
  value-le-increment o org k kind rows,
  is_counter-bumped org kind o k c (c.current_value + 1),
)

value-le-issue_all :
    (o : ℕ) (k : EntityType) (rs : List Request) (rows : Counters)
    → value o k rows ≤ value o k (issue_all rs rows)
unfolding issue_all next_business_number
value-le-issue_all o k [] rows = omega arith
value-le-issue_all o k ((org, kind) ∷ rs) rows = omega (
  arith,
  value-le-increment o org k kind rows,
  value-le-issue_all o k rs (increment org kind rows),
)

is_counter-place :
    (o : ℕ) (k k' : EntityType) (c : Counter)
    → place k ≡ place k'
    → is_counter o k c ≡ is_counter o k' c
unfolding is_counter
is_counter-place o k k' c e = rw e

value-place :
    (o : ℕ) (k k' : EntityType) (rows : Counters)
    → place k ≡ place k'
    → value o k rows ≡ value o k' rows
unfolding value
value-place o k k' [] e = refl
value-place o k k' (c ∷ rows) e = rw (is_counter-place o k k' c e) (rw (value-place o k k' rows e))

-- However many numbers are issued in between, for any organizations and entity types, a number
-- that an organization is given later, of any entity type, differs from one that it was given
-- earlier.
pub next_business_number-fresh :
    (org : ℕ) (kind kind' : EntityType) (rs : List Request) (rows : Counters)
    → (next_business_number org kind' (issue_all rs (next_business_number org kind rows).1)).0
      ≢ (next_business_number org kind rows).0
unfolding next_business_number
next_business_number-fresh org kind kind' rs rows e =
    let later : Counters = issue_all rs (increment org kind rows) in
    let now : ℕ = value org kind (increment org kind rows) in
    let next : ℕ = value org kind' (increment org kind' later) in
    omega (
      arith,
      business_number-value kind' kind next now e,
      value-place org kind' kind later (business_number-place kind' kind next now e),
      value-increment_self org kind' later,
      value-le-issue_all org kind rs (increment org kind rows),
    )

-- A number prints the organization's counter of its entity type plus one, which is then the
-- counter's value.
pub next_business_number-counts :
    (org : ℕ) (kind : EntityType) (rows : Counters)
    → ((next_business_number org kind rows).0 ≡ business_number kind (value org kind rows + 1))
      × (value org kind (next_business_number org kind rows).1 ≡ value org kind rows + 1)
unfolding next_business_number
next_business_number-counts org kind rows =
    (rw (value-increment_self org kind rows), value-increment_self org kind rows)

-- The counters of other organizations and of other entity types stay.
pub next_business_number-others :
    (org o : ℕ) (kind k : EntityType) (rows : Counters)
    → ((o ≡ org) × (place k ≡ place kind) → ⊥)
    → value o k (next_business_number org kind rows).1 ≡ value o k rows
unfolding next_business_number
next_business_number-others org o kind k rows = value-increment_ne org kind o k rows
