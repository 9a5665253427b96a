-- ===== src/Commercial/Depths.antt =====
-- The length of a stretch of depths inside another, and how it splits where the other is split.
use cestos_oversight.Base.{ℕ, ◌+◌, ◌-◌, ◌≤◌, min, ◌≡◌, refl, arith}
use cestos_oversight.Base.Int.{
  ℤ, pos, zero_ℤ, pos_part, neg_part, ◌+ℤ◌, ◌-ℤ◌, ◌≤ℤ◌, max_ℤ, min_ℤ, int_laws, -ℤ_parts,
}
use cestos_oversight.Base.Decimal.{max_ℕ}

-- The metres from `a` to `b` at depths from `lo` to `hi`.
abbrev pub within : ℤ → ℤ → ℤ → ℤ → ℤ
within a b lo hi = max_ℤ zero_ℤ (min_ℤ b hi -ℤ max_ℤ a lo)

-- The same on natural numbers.
within_ℕ : ℕ → ℕ → ℕ → ℕ → ℕ
within_ℕ a b lo hi = min b hi - max_ℕ a lo

within_ℕ-split :
    (a b lo mid hi : ℕ)
    → lo ≤ mid
    → mid ≤ hi
    → within_ℕ a b lo mid + within_ℕ a b mid hi ≡ within_ℕ a b lo hi
unfolding within_ℕ max_ℕ
within_ℕ-split a b lo mid hi h k = ground arith

-- An integer that is moved up by `k` is the number `n`.
abbrev IsMoved : ℕ → ℤ → ℕ → Type 0
IsMoved k x n = n + neg_part x ≡ pos_part x + k

min-IsMoved :
    (k m n : ℕ) (x y : ℤ) → IsMoved k x m → IsMoved k y n → IsMoved k (min_ℤ x y) (min m n)
unfolding min_ℤ
min-IsMoved k m n x y hx hy = ground arith

max-IsMoved :
    (k m n : ℕ) (x y : ℤ) → IsMoved k x m → IsMoved k y n → IsMoved k (max_ℤ x y) (max_ℕ m n)
unfolding max_ℤ max_ℕ
max-IsMoved k m n x y hx hy = ground arith

gap_moved :
    (k m n : ℕ) (x y : ℤ) → IsMoved k x m → IsMoved k y n → max_ℤ zero_ℤ (x -ℤ y) ≡ pos (m - n)
unfolding max_ℤ
gap_moved k m n x y hx hy = ground (arith, -ℤ_parts x y)

within_moved :
    (k a' b' lo' hi' : ℕ) (a b lo hi : ℤ)
    → IsMoved k a a'
    → IsMoved k b b'
    → IsMoved k lo lo'
    → IsMoved k hi hi'
    → within a b lo hi ≡ pos (within_ℕ a' b' lo' hi')
unfolding within_ℕ
within_moved k a' b' lo' hi' a b lo hi ha hb hl hh =
    gap_moved k (min b' hi') (max_ℕ a' lo') (min_ℤ b hi) (max_ℤ a lo)
      (min-IsMoved k b' hi' b hi hb hh) (max-IsMoved k a' lo' a lo ha hl)

moved : (k : ℕ) (x : ℤ) → neg_part x ≤ k → IsMoved k x (pos_part x + (k - neg_part x))
moved k x h = omega arith

+ℤ_pos : (m n : ℕ) → pos m +ℤ pos n ≡ pos (m + n)
+ℤ_pos m n = omega int_laws

pub within_split :
    (a b lo mid hi : ℤ)
    → lo ≤ℤ mid
    → mid ≤ℤ hi
    → within a b lo mid +ℤ within a b mid hi ≡ within a b lo hi
within_split a b lo mid hi h j =
    let k : ℕ = neg_part a + neg_part b + neg_part lo + neg_part mid + neg_part hi in
    let up : ℤ → ℕ = λ x. pos_part x + (k - neg_part x) in
    let ma = moved k a (omega arith) in
    let mb = moved k b (omega arith) in
    let ml = moved k lo (omega arith) in
    let mm = moved k mid (omega arith) in
    let mh = moved k hi (omega arith) in
    rw
      (
        within_moved k (up a) (up b) (up lo) (up mid) a b lo mid ma mb ml mm,
        within_moved k (up a) (up b) (up mid) (up hi) a b mid hi ma mb mm mh,
        within_moved k (up a) (up b) (up lo) (up hi) a b lo hi ma mb ml mh,
        +ℤ_pos,
        within_ℕ-split (up a) (up b) (up lo) (up mid) (up hi) (omega arith) (omega arith),
      )
      refl

-- The metres from `a` down to `b` that lie deeper than `lo`.
abbrev pub deeper : ℤ → ℤ → ℤ → ℤ
deeper a b lo = max_ℤ zero_ℤ (b -ℤ max_ℤ a lo)

deeper_ℕ-split :
    (a b lo from to : ℕ)
    → lo ≤ from
    → from ≤ to
    → within_ℕ a b from to + (b - max_ℕ a to) ≤ b - max_ℕ a lo
unfolding within_ℕ max_ℕ
deeper_ℕ-split a b lo from to h k = ground arith

-- A band below `lo` takes its share of what is deeper than `lo`.
pub deeper_split :
    (a b lo from to : ℤ)
    → lo ≤ℤ from
    → from ≤ℤ to
    → within a b from to +ℤ deeper a b to ≤ℤ deeper a b lo
deeper_split a b lo from to h j =
    let k : ℕ = neg_part a + neg_part b + neg_part lo + neg_part from + neg_part to in
    let up : ℤ → ℕ = λ x. pos_part x + (k - neg_part x) in
    let ma = moved k a (omega arith) in
    let mb = moved k b (omega arith) in
    let ml = moved k lo (omega arith) in
    let mf = moved k from (omega arith) in
    let mt = moved k to (omega arith) in
    let most = deeper_ℕ-split (up a) (up b) (up lo) (up from) (up to) (omega arith) (omega arith) in
    rw
      (
        within_moved k (up a) (up b) (up from) (up to) a b from to ma mb mf mt,
        gap_moved k (up b) (max_ℕ (up a) (up to)) b (max_ℤ a to) mb
            (max-IsMoved k (up a) (up to) a to ma mt),
        gap_moved k (up b) (max_ℕ (up a) (up lo)) b (max_ℤ a lo) mb
            (max-IsMoved k (up a) (up lo) a lo ma ml),
        +ℤ_pos,
      )
      (omega (arith, most))

pub max_zero_nonneg : (x : ℤ) → neg_part (max_ℤ zero_ℤ x) ≡ 0
unfolding max_ℤ
max_zero_nonneg x = ground arith

pub within_empty : (a b lo : ℤ) → within a b lo lo ≡ zero_ℤ
unfolding max_ℤ min_ℤ
within_empty a b lo = ground (arith, -ℤ_parts (min_ℤ b lo) (max_ℤ a lo))

pub within_all : (a b lo hi : ℤ) → lo ≤ℤ a → a ≤ℤ b → b ≤ℤ hi → within a b lo hi ≡ b -ℤ a
unfolding max_ℤ min_ℤ
within_all a b lo hi h j k = ground (arith, -ℤ_parts b a)

pub deeper_le : (a b lo : ℤ) → a ≤ℤ b → deeper a b lo ≤ℤ b -ℤ a
unfolding max_ℤ
deeper_le a b lo h = ground (arith, -ℤ_parts b a, -ℤ_parts b (max_ℤ a lo))

pub sub_nonneg : (a b : ℤ) → a ≤ℤ b → neg_part (b -ℤ a) ≡ 0
unfolding ◌-ℤ◌
sub_nonneg a b h = ground arith
