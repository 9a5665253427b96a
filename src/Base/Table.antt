-- ===== src/Base/Table.antt =====
-- Tables: rows looked up by a number.
use Prim.Native.Nat.{ℕ}
use mathlib.Core.Path.{◌≡◌}
use mathlib.Core.Logic.{◌≢◌}
use mathlib.Core.Option.{Option, some}
use native.Mathlib.Omega.{arith}
use cestos_oversight.Base.Tests.{◌==◌, if◌then◌else◌}

abbrev pub Table {ℓ} : Type ℓ → Type ℓ
Table A = ℕ → Option A

module _ {ℓ} {A : Type ℓ} where
  -- The table with the row `k` written.
  abbrev pub put : ℕ → A → Table A → Table A
  put k v t j = if j == k then some v else t j

  pub put_self : (k : ℕ) (v : A) (t : Table A) → put k v t k ≡ some v
  put_self k v t = ground arith

  pub put_ne : (k j : ℕ) (v : A) (t : Table A) → j ≢ k → put k v t j ≡ t j
  put_ne k j v t h = ground arith
