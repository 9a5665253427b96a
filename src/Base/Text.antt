-- ===== src/Base/Text.antt =====
-- Text as a list of character codes; case and white space are those of ASCII.
use cestos_oversight.Base.Tests.{leb, ◌==◌, if◌then◌else◌}
use Prim.Native.Nat.{ℕ, ◌+◌, ◌-◌}
use mathlib.Core.Path.{◌≡◌, refl}
use native.Mathlib.Omega.{arith}
use mathlib.Core.Bool.{Bool, true, false, ◌&&◌, ◌||◌}
use mathlib.Core.Option.{Option, none, some}
use mathlib.Core.List.{List, [], ◌∷◌, map, reverse}

abbrev pub Text : Type 0
Text = List ℕ

pub lower_char : ℕ → ℕ
lower_char c = if leb b'A' c && leb c b'Z' then c + 32 else c

-- `str.lower`
unfoldable pub lower : Text → Text
unfolding lower_char
lower = map lower_char

upper_char : ℕ → ℕ
upper_char c = if leb b'a' c && leb c b'z' then c - 32 else c

-- `str.upper`
unfoldable pub upper : Text → Text
unfolding upper_char
upper = map upper_char

is_space : ℕ → Bool
is_space c = c == 32 || (leb 9 c && leb c 13) || (leb 28 c && leb c 31)

strip_left : Text → Text
unfolding is_space
strip_left [] = []
strip_left (c ∷ s) = if is_space c then strip_left s else c ∷ s

-- `str.strip`
unfoldable pub strip : Text → Text
unfolding strip_left
strip s = reverse (strip_left (reverse (strip_left s)))

trim_left : Text → Text
trim_left [] = []
trim_left (c ∷ s) = if c == 32 then trim_left s else c ∷ s

-- `trim` of SQL, which removes spaces alone.
unfoldable pub trim : Text → Text
unfolding trim_left
trim s = reverse (trim_left (reverse (trim_left s)))

infix 50 ◌=ᵗ◌
abbrev pub ◌=ᵗ◌ : Text → Text → Bool
[] =ᵗ [] = true
(a ∷ s) =ᵗ (b ∷ t) = (a == b) && (s =ᵗ t)
_ =ᵗ _ = false

-- The truth of an optional text.
abbrev pub is_filled : Option Text → Bool
is_filled none = false
is_filled (some []) = false
is_filled (some (_ ∷ _)) = true

is_prefix : Text → Text → Bool
is_prefix [] t = true
is_prefix (a ∷ s) [] = false
is_prefix (a ∷ s) (b ∷ t) = (a == b) && is_prefix s t

-- `s in t` of Python
unfoldable pub contains : Text → Text → Bool
unfolding is_prefix
contains s [] = is_prefix s []
contains s (b ∷ t) = is_prefix s (b ∷ t) || contains s t

pub =ᵗ_refl : (s : Text) → (s =ᵗ s) ≡ true
=ᵗ_refl [] = refl
=ᵗ_refl (c ∷ s) = ground (arith, =ᵗ_refl s)

pub =ᵗ→eq : (s t : Text) → (s =ᵗ t) ≡ true → s ≡ t
=ᵗ→eq [] [] h = refl
=ᵗ→eq [] (b ∷ t) h = cc
=ᵗ→eq (a ∷ s) [] h = cc
=ᵗ→eq (a ∷ s) (b ∷ t) h = ground (arith, =ᵗ→eq s t)
