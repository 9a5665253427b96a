-- ===== src/Base/Decimal/Signs.antt =====
-- The signs and the order of decimals at the default context.
use cestos_oversight.Base.Tests.{leb, ◌==◌, if◌then◌else◌, Bool-cases}
use cestos_oversight.Base.Int.{ℤ, pos, negsuc, size, ◌+ℤ◌, ◌*ℤ◌, ◌≤ℤ◌, ltb_ℤ, zero_ℤ, neg_part}
use cestos_oversight.Base.Decimal.{
  Decimal, scaled, digits, drop_digits, signed, fix, at_places, max_ℕ, ◌+ᵈ◌, ◌*ᵈ◌, ◌≤ᵈ◌,
}
use Prim.Native.Nat.{ℕ, ◌+◌, ◌-◌, ◌^◌}
use mathlib.Core.Path.{◌≡◌, refl}
use mathlib.Core.Bool.{true, false}
use mathlib.Core.Logic.{inl, inr}
use native.Mathlib.Omega.{arith}

pub *ℤ_nonneg : (a b : ℤ) → neg_part a ≡ 0 → neg_part b ≡ 0 → neg_part (a *ℤ b) ≡ 0
unfolding ◌*ℤ◌
*ℤ_nonneg (pos m) (pos n) ha hb = ground arith
*ℤ_nonneg (pos m) (negsuc n) ha hb = ground arith
*ℤ_nonneg (negsuc m) b ha hb = ground arith

pub +ℤ_nonneg : (a b : ℤ) → neg_part a ≡ 0 → neg_part b ≡ 0 → neg_part (a +ℤ b) ≡ 0
unfolding ◌+ℤ◌
+ℤ_nonneg a b ha hb = ground arith

drop_digits_nonneg : (c : ℤ) (k : ℕ) → neg_part c ≡ 0 → neg_part (drop_digits c k) ≡ 0
unfolding drop_digits signed
drop_digits_nonneg (pos n) k h = refl
drop_digits_nonneg (negsuc n) k h = ground arith

abbrev pub IsNonneg : Decimal → Type 0
IsNonneg d = neg_part d.coefficient ≡ 0

fix-IsNonneg : (d : Decimal) → IsNonneg d → IsNonneg (fix d)
unfolding fix
fix-IsNonneg d h =
    let k = digits (size d.coefficient) - 28 in
    elim (Bool-cases (k == 0)) [
      | inl same ↦ rw same h
      | inr other ↦ elim (Bool-cases (leb k d.places)) [
        | inl below ↦ rw (other, below) (drop_digits_nonneg d.coefficient k h)
        | inr above ↦
            rw (other, above)
              (*ℤ_nonneg (drop_digits d.coefficient k) (pos (10 ^ (k - d.places)))
                (drop_digits_nonneg d.coefficient k h) refl)
      ]
    ]

at_places_nonneg : (p : ℕ) (d : Decimal) → IsNonneg d → neg_part (at_places p d) ≡ 0
at_places_nonneg p d h = *ℤ_nonneg d.coefficient (pos (10 ^ (p - d.places))) h refl

-- The sum and the product of two decimals that are not negative is not negative.
pub +ᵈ-IsNonneg : (a b : Decimal) → IsNonneg a → IsNonneg b → IsNonneg (a +ᵈ b)
unfolding ◌+ᵈ◌
+ᵈ-IsNonneg a b ha hb =
    let p = max_ℕ a.places b.places in
    fix-IsNonneg (scaled p (at_places p a +ℤ at_places p b)) (
      +ℤ_nonneg (at_places p a) (at_places p b) (at_places_nonneg p a ha) (at_places_nonneg p b hb))

pub *ᵈ-IsNonneg : (a b : Decimal) → IsNonneg a → IsNonneg b → IsNonneg (a *ᵈ b)
unfolding ◌*ᵈ◌
*ᵈ-IsNonneg a b ha hb =
    fix-IsNonneg (scaled (a.places + b.places) (a.coefficient *ℤ b.coefficient))
      (*ℤ_nonneg a.coefficient b.coefficient ha hb)

pub IsNonneg-of_test : (d : Decimal) → ltb_ℤ d.coefficient zero_ℤ ≡ false → IsNonneg d
IsNonneg-of_test d h = ground arith

*ℤ_one : (a : ℤ) → a *ℤ pos 1 ≡ a
unfolding ◌*ℤ◌
*ℤ_one (pos n) = ground arith
*ℤ_one (negsuc n) = ground arith

-- Decimals of the same scale compare as their coefficients.
pub scaled_le : (p : ℕ) (a b : ℤ) → a ≤ℤ b → (scaled p a ≤ᵈ scaled p b) ≡ true
unfolding ◌≤ᵈ◌ max_ℕ
scaled_le p a b h =
    let same : p - p ≡ 0 = omega arith in
    let top : (if leb p p then p else p) ≡ p = ground arith in
    rw (top, same, *ℤ_one a, *ℤ_one b) (ground arith)

pub scaled_le_inv : (p : ℕ) (a b : ℤ) → (scaled p a ≤ᵈ scaled p b) ≡ true → a ≤ℤ b
unfolding ◌≤ᵈ◌ max_ℕ
scaled_le_inv p a b h =
    let same : p - p ≡ 0 = omega arith in
    let top : (if leb p p then p else p) ≡ p = ground arith in
    let h' = rw (top, same, *ℤ_one a, *ℤ_one b) at h in ground arith
