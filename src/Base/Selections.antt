-- ===== src/Base/Selections.antt =====
-- Laws of appended and selected lists.
use Prim.Native.Nat.{◌≤◌}
use mathlib.Core.Path.{◌≡◌, refl, ap}
use mathlib.Core.Logic.{inl, inr}
use mathlib.Core.Bool.{Bool, false}
use mathlib.Core.List.{List, [], ◌∷◌, ◌++◌}
use native.Mathlib.Omega.{arith}
use cestos_oversight.Base.Tests.{Bool-cases}
use cestos_oversight.Base.Lists.{length, any, keep, All}

pub append_nil : {A : Type 0} (xs : List A) → xs ++ [] ≡ xs
append_nil [] = refl
append_nil (x ∷ xs) = ap (λ l. x ∷ l) (append_nil xs)

module _ {A : Type 0} (p : A → Bool) where
  pub keep-append : (xs ys : List A) → keep p (xs ++ ys) ≡ keep p xs ++ keep p ys
  keep-append [] ys = refl
  keep-append (x ∷ xs) ys = elim (Bool-cases (p x)) [
    | inl e ↦ rw e (ap (λ l. x ∷ l) (keep-append xs ys))
    | inr e ↦ rw e (keep-append xs ys)
  ]

  pub keep_twice : (xs : List A) → keep p (keep p xs) ≡ keep p xs
  keep_twice [] = refl
  keep_twice (x ∷ xs) = elim (Bool-cases (p x)) [
    | inl e ↦ rw e (rw e (ap (λ l. x ∷ l) (keep_twice xs)))
    | inr e ↦ rw e (keep_twice xs)
  ]

  pub keep_of_any : (xs : List A) → any p xs ≡ false → keep p xs ≡ []
  keep_of_any [] h = refl
  keep_of_any (x ∷ xs) h = elim (Bool-cases (p x)) [
    | inl e ↦ ground arith
    | inr e ↦ rw e (keep_of_any xs (rw e at h))
  ]

  pub keep_fewer : (q : A → Bool) (xs : List A) → length (keep p (keep q xs)) ≤ length (keep p xs)
  keep_fewer q [] = omega arith
  keep_fewer q (x ∷ xs) = elim (Bool-cases (q x)) [
    | inl e ↦ elim (Bool-cases (p x)) [
      | inl f ↦ rw e (rw f (omega (arith, keep_fewer q xs)))
      | inr f ↦ rw e (rw f (keep_fewer q xs))
    ]
    | inr e ↦ elim (Bool-cases (p x)) [
      | inl f ↦ rw (e, f) (omega (arith, keep_fewer q xs))
      | inr f ↦ rw (e, f) (keep_fewer q xs)
    ]
  ]

  pub length-keep_one : (x : A) → length (keep p (x ∷ [])) ≤ 1
  length-keep_one x = ground arith

module _ {A : Type 0} (P : A → Type 0) where
  pub All-append : (xs ys : List A) → All P xs → All P ys → All P (xs ++ ys)
  All-append [] ys h k = k
  All-append (x ∷ xs) ys h k = (h.0, All-append xs ys h.1 k)

module _ {A : Type 0} {P Q : A → Type 0} where
  pub All-map : ((x : A) → P x → Q x) → (xs : List A) → All P xs → All Q xs
  All-map f [] h = tt
  All-map f (x ∷ xs) h = (f x h.0, All-map f xs h.1)
