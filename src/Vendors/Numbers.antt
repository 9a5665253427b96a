-- ===== src/Vendors/Numbers.antt =====
-- The loop of `next_supplier_number` (app/services/vendors.py) ends, with a number that is free.
use cestos_oversight.Base.{
  ℕ, zero, suc, ◌+◌, ◌≤◌, ◌<◌, ◌≡◌, refl, ap, ◌∙◌, sym, Option, none, some, List, [], ◌∷◌, Bool,
  true, false, ltb, inl, inr, Bool-cases, Option-cases, any, arith, if◌then◌else◌, not,
}
use cestos_oversight.Base.Text.{Text, ◌=ᵗ◌, =ᵗ→eq}
use cestos_oversight.Counters.{EntityType, Counters, value, business_number, next_business_number}
use cestos_oversight.Counters.Issue.{next_business_number-counts}
use cestos_oversight.Counters.{width}
use cestos_oversight.Counters.Format.{parse_number, parse_number-padded}
use cestos_oversight.Counters.Names.{after_dash, after_dash-business_number}
use cestos_oversight.Vendors.{Vendor, has_number, free_number, vendor_fuel}

-- The number that the counter prints when it stands at `n`.
abbrev number : ℕ → Text
number n = business_number EntityType.supplier n

-- No vendor has the number.
abbrev is_free : List Vendor → Text → Bool
is_free vs t = not (any (has_number t) vs)

-- The counter that a number was printed from, for a number that was.
held : Text → ℕ
held t = parse_number (after_dash t)

held-number : (n : ℕ) → held (number n) ≡ n
unfolding held
held-number n =
    ap parse_number (after_dash-business_number EntityType.supplier n) ∙ parse_number-padded width n

abbrev is_ahead : ℕ → Vendor → Bool
is_ahead n v = elim v.supplier_number [ none ↦ false | some t ↦ ltb n (held t) ]

-- How many vendors hold a number that the counter has still to print.
ahead : ℕ → List Vendor → ℕ
ahead n [] = 0
ahead n (v ∷ vs) = (if is_ahead n v then 1 else 0) + ahead n vs

ahead-suc : (n : ℕ) (vs : List Vendor) → ahead (suc n) vs ≤ ahead n vs
unfolding ahead
ahead-suc n [] = omega arith
ahead-suc n (v ∷ vs) = elim (Option-cases v.supplier_number) [
  | inl e ↦ rw e (omega (arith, ahead-suc n vs))
  | inr (t, e) ↦ rw e (ground (arith, ahead-suc n vs))
]

-- A number that is taken is behind the counter once it has been printed.
ahead-taken :
    (n : ℕ) (vs : List Vendor)
    → any (has_number (number (suc n))) vs ≡ true
    → ahead (suc n) vs < ahead n vs
unfolding ahead
ahead-taken n [] h = cc
ahead-taken n (v ∷ vs) h = elim (Option-cases v.supplier_number) [
  | inl e ↦ rw e (omega (arith, ahead-taken n vs (rw e at h)))
  | inr (t, e) ↦ elim (Bool-cases (t =ᵗ number (suc n))) [
    | inl hit ↦
        rw (e, =ᵗ→eq t (number (suc n)) hit, held-number (suc n)) (ground (arith, ahead-suc n vs))
    | inr miss ↦ rw e (ground (arith, ahead-taken n vs, rw (e, miss) at h))
  ]
]

ahead-vendor_fuel : (n : ℕ) (vs : List Vendor) → ahead n vs < vendor_fuel vs
unfolding ahead vendor_fuel
ahead-vendor_fuel n [] = omega arith
ahead-vendor_fuel n (v ∷ vs) = elim (Option-cases v.supplier_number) [
  | inl e ↦ rw e (ground (arith, ahead-vendor_fuel n vs))
  | inr (t, e) ↦ rw e (ground (arith, ahead-vendor_fuel n vs))
]

module _ (org : ℕ) (vs : List Vendor) where
  -- What the loop has found: a number that no vendor has, printed by a later count of the counter,
  -- at which the counter then stands.
  pub record IsFound (counters : Counters) (r : Text × Counters) : Type 0 where
    pub free : any (has_number r.0) vs ≡ false
    pub printed : r.0 ≡ number (value org EntityType.supplier r.1)
    pub later : value org EntityType.supplier counters < value org EntityType.supplier r.1

  abbrev Finds : Counters → Option (Text × Counters) → Type 0
  Finds counters none = ⊥
  Finds counters (some r) = IsFound counters r

  Finds-later :
      (c c' : Counters) (o : Option (Text × Counters))
      → value org EntityType.supplier c ≤ value org EntityType.supplier c'
      → Finds c' o
      → Finds c o
  Finds-later c c' none le f = f
  Finds-later c c' (some r) le f = record {
    free = f.free;
    printed = f.printed;
    later = omega (arith, f.later);
  }

  chosen :
      (c : Counters) (b : Bool) (o : Option (Text × Counters)) (r : Text × Counters)
      → (b ≡ true → Finds c o)
      → (b ≡ false → IsFound c r)
      → Finds c (elim b [ true ↦ o | false ↦ some r ])
  chosen c true o r taken free = taken refl
  chosen c false o r taken free = free refl

  free_number-Finds :
      (fuel : ℕ) (counters : Counters)
      → ahead (value org EntityType.supplier counters) vs < fuel
      → Finds counters (free_number fuel org vs counters)
  unfolding free_number
  free_number-Finds zero counters h = omega arith
  free_number-Finds (suc fuel) counters h =
      let drawn : Text × Counters = next_business_number org EntityType.supplier counters in
      let n : ℕ = value org EntityType.supplier counters in
      let printed : drawn.0 ≡ number (suc n) =
        (next_business_number-counts org EntityType.supplier counters).0
        ∙ ap number (omega arith) in
      let counted : value org EntityType.supplier drawn.1 ≡ suc n =
        (next_business_number-counts org EntityType.supplier counters).1 ∙ omega arith in
      chosen counters (any (has_number drawn.0) vs) (free_number fuel org vs drawn.1) drawn
        (λ taken.
          Finds-later counters drawn.1 (free_number fuel org vs drawn.1) (omega (arith, counted)) (
            free_number-Finds fuel drawn.1
              (rw counted (omega (arith, h, ahead-taken n vs (rw printed at taken))))))
        (λ free. record {
          free = free;
          printed = printed ∙ ap number (sym counted);
          later = omega (arith, counted);
        })

  -- The search for a supplier number ends, with the fuel that it gets: it returns a number that no
  -- vendor has, and leaves the counter at the count which that number prints.
  pub free_number_ends :
      (counters : Counters)
      → (r : Text × Counters) × (free_number (vendor_fuel vs) org vs counters ≡ some r)
        × IsFound counters r
  free_number_ends counters = ended (free_number (vendor_fuel vs) org vs counters) (
      free_number-Finds (vendor_fuel vs) counters
        (ahead-vendor_fuel (value org EntityType.supplier counters) vs))
    where
      ended :
          (o : Option (Text × Counters))
          → Finds counters o
          → (r : Text × Counters) × (o ≡ some r) × IsFound counters r
      ended none f = elim f [ ]
      ended (some r) f = (r, refl, f)
