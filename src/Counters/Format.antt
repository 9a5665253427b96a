-- ===== src/Counters/Format.antt =====
-- The printed form of a counter, the `:0{width}d` of app/services/counters.py, and its reader.
use cestos_oversight.Base.{
  ℕ, zero, suc, ◌+◌, ◌-◌, ◌*◌, ◌/◌, ◌%◌, ◌<◌, ◌≡◌, refl, [], ◌∷◌, arith, ltb, length, if◌then◌else◌,
  inl, inr, Bool-cases, ◌∙◌,
}
use cestos_oversight.Base.Text.{Text}

-- The decimal digits of a number, before a text. A number below the fuel needs no more than it.
digits_onto : ℕ → ℕ → Text → Text
digits_onto zero n acc = acc
digits_onto (suc f) n acc =
    let rest = digits_onto f (n / 10) ((48 + n % 10) ∷ acc) in
    if ltb n 10 then (48 + n) ∷ acc else rest

unfoldable pub decimal : ℕ → Text
unfolding digits_onto
decimal n = digits_onto (suc n) n []

zeros_onto : ℕ → Text → Text
zeros_onto zero s = s
zeros_onto (suc k) s = 48 ∷ zeros_onto k s

-- `f"{n:0{width}d}"`
unfoldable pub padded : ℕ → ℕ → Text
unfolding zeros_onto decimal
padded width n = let s = decimal n in zeros_onto (width - length s) s

parse_from : ℕ → Text → ℕ
parse_from v [] = v
parse_from v (c ∷ s) = parse_from (v * 10 + (c - 48)) s

-- The number that a text of decimal digits stands for.
unfoldable pub parse_number : Text → ℕ
unfolding parse_from
parse_number = parse_from 0

parse_from-digits_onto :
    (f n : ℕ) (acc : Text) → n < f → parse_from 0 (digits_onto f n acc) ≡ parse_from n acc
unfolding digits_onto parse_from
parse_from-digits_onto zero n acc h = absurd (omega arith)
parse_from-digits_onto (suc f) n acc h = elim (Bool-cases (ltb n 10)) [
  | inl small ↦ rw small (ap_parse (0 * 10 + (48 + n - 48)) n acc (omega arith))
  | inr big ↦ rw big (
      parse_from-digits_onto f (n / 10) ((48 + n % 10) ∷ acc) (ground arith)
      ∙ ap_parse (n / 10 * 10 + (48 + n % 10 - 48)) n acc (omega arith))
]
  where
    ap_parse : (a b : ℕ) (s : Text) → a ≡ b → parse_from a s ≡ parse_from b s
    ap_parse a b s e = rw e

parse_from-zeros_onto : (k : ℕ) (s : Text) → parse_from 0 (zeros_onto k s) ≡ parse_from 0 s
unfolding zeros_onto parse_from
parse_from-zeros_onto zero s = refl
parse_from-zeros_onto (suc k) s = parse_from-zeros_onto k s

-- Reading a padded number gives it back, whatever the width.
pub parse_number-padded : (width n : ℕ) → parse_number (padded width n) ≡ n
unfolding padded parse_number
parse_number-padded width n =
    parse_from-zeros_onto (width - length (decimal n)) (decimal n)
    ∙ parse_from-digits_onto (suc n) n [] (omega arith)
