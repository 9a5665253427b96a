-- ===== src/Drilling/Holes.antt =====
-- The depths of holes after an approval (`approve_shift_report`, app/services/drilling.py).
use cestos_oversight.Base.{
  ℕ, ◌≡◌, refl, sym, Option, none, some, List, [], ◌∷◌, ◌==◌, ==_refl, All, arith, inl, inr,
  Bool-cases, Option-cases, if◌then◌else◌,
}
use mathlib.Core.Path.{subst}
use cestos_oversight.Base.Selections.{All-map}
use cestos_oversight.Base.Int.{ℤ, ◌≤ℤ◌, ltb_ℤ}
use cestos_oversight.Base.Decimal.{Decimal}
use cestos_oversight.Base.Table.{Table}
use cestos_oversight.Base.Text.{Text}
use cestos_oversight.Base.Action.{Result, ok, err, ◌>>=◌}
use cestos_oversight.Drilling.Model.{DrillHole, DrillingShiftInterval, DrillingShiftReport}
use cestos_oversight.Drilling.Store.{Db, live_report, report_of, save}
use cestos_oversight.Drilling.Workflow.{
  is_refused, is_approved, reached, reach_found, reach_hole, reach_holes, record_work, approve,
}

-- The depth of a hole, where it is there and has one.
abbrev pub depth : Option DrillHole → Option ℤ
depth none = none
depth (some h) = h.final_depth_m

-- Depths in order: a hole without a depth comes first.
infix 50 ◌≤ᵒ◌
abbrev pub ◌≤ᵒ◌ : Option ℤ → Option ℤ → Type 0
none ≤ᵒ e = Unit
some d ≤ᵒ none = ⊥
some d ≤ᵒ some e = d ≤ℤ e

≤ᵒ_refl : (d : Option ℤ) → d ≤ᵒ d
≤ᵒ_refl none = tt
≤ᵒ_refl (some d) = omega arith

≤ᵒ_trans : (d e f : Option ℤ) → d ≤ᵒ e → e ≤ᵒ f → d ≤ᵒ f
≤ᵒ_trans none e f h k = tt
≤ᵒ_trans (some d) none f h k = elim h [ ]
≤ᵒ_trans (some d) (some e) none h k = elim k [ ]
≤ᵒ_trans (some d) (some e) (some f) h k = omega (arith, h, k)

-- The depth to which an interval takes its hole, where the hole is the organization's.
abbrev pub claimed : ℕ → DrillingShiftInterval → Option DrillHole → Option ℤ
claimed org iv none = none
claimed org iv (some h) = if h.organization_id == org then some iv.to_depth_m else none

reached_target : (now : ℕ) (to : ℤ) (h : DrillHole) → some to ≤ᵒ (reached now to h).final_depth_m
unfolding reached
reached_target now to h = elim (Option-cases h.final_depth_m) [
  | inl e ↦ rw e (omega arith)
  | inr (d, e) ↦ elim (Bool-cases (ltb_ℤ d to)) [
    | inl k ↦ rw (e, k) (omega arith)
    | inr k ↦ rw (e, k) (ground arith)
  ]
]

reached_depth :
    (now : ℕ) (to : ℤ) (h : DrillHole) → h.final_depth_m ≤ᵒ (reached now to h).final_depth_m
unfolding reached
reached_depth now to h = elim (Option-cases h.final_depth_m) [
  | inl e ↦ rw e tt
  | inr (d, e) ↦ elim (Bool-cases (ltb_ℤ d to)) [
    | inl k ↦ rw (e, k) (ground arith)
    | inr k ↦ rw (e, k) (omega arith)
  ]
]

module _ (org now : ℕ) (iv : DrillingShiftInterval) where
  -- The holes once the hole of an interval is reached, at any place.
  found_depth :
      (k : ℕ) (holes : Table DrillHole) (o : Option DrillHole)
      → holes iv.drill_hole_id ≡ o
      → depth (holes k) ≤ᵒ depth (reach_found org now iv o holes k)
  unfolding reach_found
  found_depth k holes none e = ≤ᵒ_refl (depth (holes k))
  found_depth k holes (some h) e = elim (Bool-cases (h.organization_id == org)) [
    | inr other ↦ rw other (≤ᵒ_refl (depth (holes k)))
    | inl own ↦ elim (Bool-cases (k == iv.drill_hole_id)) [
      | inl same ↦
          let at : k ≡ iv.drill_hole_id = ground arith in
          let row : holes k ≡ some h = cc in rw (own, same, row) (reached_depth now iv.to_depth_m h)
      | inr off ↦ rw (own, off) (≤ᵒ_refl (depth (holes k)))
    ]
  ]

  found_target :
      (holes : Table DrillHole) (o : Option DrillHole)
      → holes iv.drill_hole_id ≡ o
      → claimed org iv o ≤ᵒ depth (reach_found org now iv o holes iv.drill_hole_id)
  unfolding reach_found
  found_target holes none e = tt
  found_target holes (some h) e = elim (Bool-cases (h.organization_id == org)) [
    | inr other ↦ rw other tt
    | inl own ↦ rw (own, ==_refl iv.drill_hole_id) (reached_target now iv.to_depth_m h)
  ]

  -- The owner of a hole stays.
  found-claimed :
      (i : DrillingShiftInterval) (holes : Table DrillHole) (o : Option DrillHole)
      → holes iv.drill_hole_id ≡ o
      → claimed org i (reach_found org now iv o holes i.drill_hole_id)
        ≡ claimed org i (holes i.drill_hole_id)
  unfolding reach_found reached
  found-claimed i holes none e = refl
  found-claimed i holes (some h) e = elim (Bool-cases (h.organization_id == org)) [
    | inr other ↦ rw other refl
    | inl own ↦ elim (Bool-cases (i.drill_hole_id == iv.drill_hole_id)) [
      | inl same ↦
          let at : i.drill_hole_id ≡ iv.drill_hole_id = ground arith in
          let row : holes i.drill_hole_id ≡ some h = cc in rw (own, same, row, own) refl
      | inr off ↦ rw (own, off) refl
    ]
  ]

module _ (org now : ℕ) where
  reach_holes-depth :
      (ivs : List DrillingShiftInterval) (k : ℕ) (holes : Table DrillHole)
      → depth (holes k) ≤ᵒ depth (reach_holes org now ivs holes k)
  unfolding reach_holes reach_hole
  reach_holes-depth [] k holes = ≤ᵒ_refl (depth (holes k))
  reach_holes-depth (iv ∷ ivs) k holes =
      let next : Table DrillHole = reach_hole org now iv holes in
      ≤ᵒ_trans (depth (holes k)) (depth (next k)) (depth (reach_holes org now ivs next k))
        (found_depth org now iv k holes (holes iv.drill_hole_id) refl)
        (reach_holes-depth ivs k next)

  abbrev Claims : List DrillingShiftInterval → Table DrillHole → Table DrillHole → Type 0
  Claims ivs holes later =
      All (λ iv. claimed org iv (holes iv.drill_hole_id) ≤ᵒ depth (later iv.drill_hole_id)) ivs

  reach_holes-claimed :
      (ivs : List DrillingShiftInterval) (holes : Table DrillHole)
      → Claims ivs holes (reach_holes org now ivs holes)
  unfolding reach_holes reach_hole
  reach_holes-claimed [] holes = tt
  reach_holes-claimed (iv ∷ ivs) holes =
      let next : Table DrillHole = reach_hole org now iv holes in
      let later : Table DrillHole = reach_holes org now ivs next in
      (
        ≤ᵒ_trans (claimed org iv (holes iv.drill_hole_id)) (depth (next iv.drill_hole_id))
            (depth (later iv.drill_hole_id))
            (found_target org now iv holes (holes iv.drill_hole_id) refl)
            (reach_holes-depth ivs iv.drill_hole_id next),
        All-map
            (λ (i : DrillingShiftInterval) c.
              subst (λ o. o ≤ᵒ depth (later i.drill_hole_id))
                (found-claimed org now iv i holes (holes iv.drill_hole_id) refl) c)
            ivs (reach_holes-claimed ivs next),
      )

  -- What a successful approval returns, and the holes that it leaves.
  abbrev Reached : Table DrillHole → Result (DrillingShiftReport × Db) → Type 0
  Reached holes (ok r) = r.1.holes ≡ reach_holes org now r.0.intervals holes
  Reached holes (err e) = Unit

  approve-Reached :
      (column_2 : Decimal → ℤ) (user id : ℕ) (notes : Option Text) (db : Db)
      → Reached db.holes (approve column_2 org user now id notes db)
  unfolding approve report_of save record_work ◌>>=◌
  approve-Reached column_2 user id notes db = elim (Bool-cases (is_refused org user db)) [
    | inl f ↦ rw f tt
    | inr f ↦ elim (Option-cases (live_report id db)) [
      | inl e ↦ rw (f, e) tt
      | inr (r, e) ↦ elim (Bool-cases (is_approved r.status)) [
        | inl g ↦ rw (f, e, g) tt
        | inr g ↦ rw (f, e, g) refl
      ]
    ]
  ]

  -- After an approval each hole of an interval of the report, where it is there and the
  -- organization's, is at least as deep as the end of the interval, and every hole is at least as deep
  -- as before.
  pub approval_deepens :
      (column_2 : Decimal → ℤ) (user id : ℕ) (notes : Option Text) (db : Db)
      (r : DrillingShiftReport) (db' : Db)
      → approve column_2 org user now id notes db ≡ ok (r, db')
      → All
          (λ iv. claimed org iv (db.holes iv.drill_hole_id) ≤ᵒ depth (db'.holes iv.drill_hole_id))
          r.intervals
        × ((k : ℕ) → depth (db.holes k) ≤ᵒ depth (db'.holes k))
  approval_deepens column_2 user id notes db r db' done =
      let at : db'.holes ≡ reach_holes org now r.intervals db.holes =
        subst (Reached db.holes) done (approve-Reached column_2 user id notes db) in
      (
        subst (Claims r.intervals db.holes) (sym at) (reach_holes-claimed r.intervals db.holes),
        λ k.
            subst (λ (h : Table DrillHole). depth (db.holes k) ≤ᵒ depth (h k)) (sym at)
              (reach_holes-depth r.intervals k db.holes),
      )
