-- ===== src/Auth/Logout.antt =====
-- `logout` of app/services/auth.py.
use cestos_oversight.Base.{
  ℕ, ◌≡◌, some, [], Bool, arith, inl, inr, Option-cases, find, update_first,
}
use mathlib.Core.List.{append-nil}
use cestos_oversight.Base.Action.{◌>>=◌, ok, err, authentication}
use cestos_oversight.Auth.{Settings, RefreshToken, Draw, Db, holds, refresh, logout}
use cestos_oversight.Auth.Rotation.{find-update_first, find-holds, revoked}

module _ (token_hash : ℕ → ℕ) (settings : Settings) (raw now : ℕ) where
  abbrev is_held : RefreshToken → Bool
  is_held = holds token_hash settings raw

  -- The row of a token that has just been revoked.
  found_revoked :
      (db : Db) (t : RefreshToken)
      → find is_held db.tokens ≡ some t
      → find is_held (update_first is_held (revoked token_hash settings now) db.tokens)
        ≡ some (revoked token_hash settings now t)
  found_revoked db t f =
      rw (← append-nil (update_first is_held (revoked token_hash settings now) db.tokens)) (
        find-update_first is_held (revoked token_hash settings now) db.tokens [] t f
          (find-holds is_held db.tokens t f))

  -- After a logout its token can no longer be refreshed, whatever time it is.
  pub logout_refuses :
      (draw : Draw) (db db' : Db)
      → logout token_hash settings raw now db ≡ ok (tt, db')
      → refresh token_hash settings raw draw db'
        ≡ err (authentication "Invalid or expired refresh token")
  unfolding logout refresh ◌>>=◌
  logout_refuses draw db db' e = elim (Option-cases (find is_held db.tokens)) [
    | inl missing ↦ ground arith
    | inr (t, f) ↦ ground (arith, found_revoked db t f)
  ]

  -- A second logout with the same token, at any time, succeeds and changes nothing.
  pub logout_idempotent :
      (later : ℕ) (db db' : Db)
      → logout token_hash settings raw now db ≡ ok (tt, db')
      → logout token_hash settings raw later db' ≡ ok (tt, db')
  unfolding logout ◌>>=◌
  logout_idempotent later db db' e = elim (Option-cases (find is_held db.tokens)) [
    | inl missing ↦ ground arith
    | inr (t, f) ↦ ground (arith, found_revoked db t f)
  ]
