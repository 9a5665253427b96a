-- ===== src/Base/Decimal.antt =====
-- Python's `decimal.Decimal` at its default context: 28 significant digits, half to even.
-- A number is `coefficient` / 10 ^ `places`. Exponents stay in the range that the columns of the
-- program reach, so overflow and the special values are left out.
pub mod Signs
use cestos_oversight.Base.Tests.{ltb, leb, ◌==◌, if◌then◌else◌}
use cestos_oversight.Base.Int.{ℤ, pos, negsuc, sub_ℕ, size, ◌+ℤ◌, ◌-ℤ◌, ◌*ℤ◌, neg_ℤ, leb_ℤ, ◌=ℤ◌}
use Prim.Native.Nat.{ℕ, zero, suc, ◌+◌, ◌-◌, ◌*◌, ◌/◌, ◌%◌, ◌^◌}
use mathlib.Core.Bool.{Bool, true, false}

pub record Decimal : Type 0 where
  pub coefficient : ℤ
  pub places : ℕ

-- An integer count of 10 ^ -places.
abbrev pub scaled : ℕ → ℤ → Decimal
scaled p n = record { coefficient = n; places = p }

count_digits : ℕ → ℕ → ℕ
count_digits zero n = 0
count_digits (suc f) n = elim (ltb n 10) [ true ↦ 1 | false ↦ suc (count_digits f (n / 10)) ]

-- The number of decimal digits of a coefficient.
unfoldable pub digits : ℕ → ℕ
unfolding count_digits
digits n = count_digits (suc n) n

-- `n / d` to the nearest integer, a tie to the even one.
unfoldable pub round_half_even : ℕ → ℕ → ℕ
round_half_even n d =
    let q = n / d in
    let r = n % d in
    if ltb (r * 2) d then q else if ltb d (r * 2) then q + 1 else if q % 2 == 0 then q else q + 1

signed : ℤ → ℕ → ℤ
signed (pos _) n = pos n
signed (negsuc _) n = sub_ℕ 0 n

-- A coefficient divided by 10 ^ k and rounded.
unfoldable pub drop_digits : ℤ → ℕ → ℤ
unfolding signed round_half_even
drop_digits c k = signed c (round_half_even (size c) (10 ^ k))

-- The rounding of a result to 28 significant digits.
unfoldable pub fix : Decimal → Decimal
unfolding drop_digits digits
fix d =
    let k = digits (size d.coefficient) - 28 in
    if k == 0
    then d
    else if leb k d.places
    then scaled (d.places - k) (drop_digits d.coefficient k)
    else scaled 0 (drop_digits d.coefficient k *ℤ pos (10 ^ (k - d.places)))

-- The coefficient at more places.
abbrev pub at_places : ℕ → Decimal → ℤ
at_places p d = d.coefficient *ℤ pos (10 ^ (p - d.places))

unfoldable pub max_ℕ : ℕ → ℕ → ℕ
max_ℕ a b = if leb a b then b else a

infixl 65 ◌+ᵈ◌ ◌-ᵈ◌
infixl 70 ◌*ᵈ◌ ◌/ᵈ◌
infix 50 ◌=ᵈ◌
unfoldable pub ◌+ᵈ◌ : Decimal → Decimal → Decimal
unfolding fix max_ℕ ◌+ℤ◌ ◌*ℤ◌
a +ᵈ b = let p = max_ℕ a.places b.places in fix (scaled p (at_places p a +ℤ at_places p b))

unfoldable pub ◌-ᵈ◌ : Decimal → Decimal → Decimal
unfolding fix max_ℕ ◌-ℤ◌ ◌*ℤ◌
a -ᵈ b = let p = max_ℕ a.places b.places in fix (scaled p (at_places p a -ℤ at_places p b))

unfoldable pub neg_ᵈ : Decimal → Decimal
unfolding fix neg_ℤ
neg_ᵈ a = fix (scaled a.places (neg_ℤ a.coefficient))

unfoldable pub ◌*ᵈ◌ : Decimal → Decimal → Decimal
unfolding fix ◌*ℤ◌
a *ᵈ b = fix (scaled (a.places + b.places) (a.coefficient *ℤ b.coefficient))

-- Division by a number other than zero: a quotient of at least 29 digits, whose last digit is made
-- sticky where the division is not exact, and then rounded.
quotient : ℕ → ℕ → ℕ → ℕ
quotient a b shift =
    let q = a * 10 ^ shift / b in
    if a * 10 ^ shift % b == 0 then q else if q % 5 == 0 then q + 1 else q

unfoldable pub ◌/ᵈ◌ : Decimal → Decimal → Decimal
unfolding fix quotient digits signed ◌*ℤ◌
a /ᵈ b =
    let shift = digits (size b.coefficient) + 29 - digits (size a.coefficient) in
    let q = quotient (size a.coefficient) (size b.coefficient) shift in
    let p = a.places + shift in
    fix (scaled (p - b.places) (signed (a.coefficient *ℤ b.coefficient) (q * 10 ^ (b.places - p))))

-- `quantize` to a number of places, as the count of 10 ^ -places.
unfoldable pub quantize : ℕ → Decimal → ℤ
unfolding drop_digits ◌*ℤ◌
quantize p d = if leb d.places p then at_places p d else drop_digits d.coefficient (d.places - p)

-- Comparisons are of the exact values.
unfoldable pub ◌=ᵈ◌ : Decimal → Decimal → Bool
unfolding max_ℕ ◌*ℤ◌
◌=ᵈ◌ a b = let p = max_ℕ a.places b.places in at_places p a =ℤ at_places p b

infix 50 ◌≤ᵈ◌
unfoldable pub ◌≤ᵈ◌ : Decimal → Decimal → Bool
unfolding max_ℕ ◌*ℤ◌
◌≤ᵈ◌ a b = let p = max_ℕ a.places b.places in leb_ℤ (at_places p a) (at_places p b)
