-- ===== src/Auth/Rotation.antt =====
-- `refresh` and `logout` of app/services/auth.py: what a successful call has done.
use cestos_oversight.Base.{
  ℕ, ◌+◌, ◌<◌, ◌≡◌, none, some, List, [], ◌∷◌, ◌++◌, Bool, true, false, arith, inl, inr,
  Option-cases, find, update_first, min,
}
use cestos_oversight.Base.Action.{◌>>=◌, ok, err, authentication}
use cestos_oversight.Auth.{
  Settings, User, RefreshToken, Draw, Db, TokenResponse, hours, holds, refresh, user_by_id,
  is_unavailable, create_access_token,
}

pub find-update_first :
    {A : Type 0} (p : A → Bool) (f : A → A) (xs ys : List A) (a : A)
    → find p xs ≡ some a
    → p (f a) ≡ true
    → find p (update_first p f xs ++ ys) ≡ some (f a)
find-update_first p f [] ys a e h = cc
find-update_first p f (x ∷ xs) ys a e h = ground (arith, find-update_first p f xs ys a)

pub find-holds : {A : Type 0} (p : A → Bool) (xs : List A) (a : A) → find p xs ≡ some a → p a ≡ true
find-holds p [] a f = cc
find-holds p (x ∷ xs) a f = ground (arith, find-holds p xs a)

module _ (token_hash : ℕ → ℕ) (settings : Settings) where
  -- The session's deadline, as `refresh` computes it from the token that is presented.
  abbrev pub deadline : RefreshToken → ℕ
  deadline t = min t.expires_at (t.created_at + hours settings.login_session_hours)

  -- The row that replaces it.
  abbrev pub successor : RefreshToken → Draw → RefreshToken
  successor t draw = record {
    user_id = t.user_id;
    token_hash = token_hash draw.raw;
    created_at = draw.now;
    expires_at = deadline t;
    revoked_at = none;
  }

  abbrev pub revoked : ℕ → RefreshToken → RefreshToken
  revoked at t = record t { revoked_at = some at }

  -- What a successful `refresh` found and wrote.
  pub record Rotated (raw : ℕ) (draw : Draw) (db : Db) (r : TokenResponse) (db' : Db) : Type 0 where
    pub token : RefreshToken
    pub found : find (holds token_hash settings raw) db.tokens ≡ some token
    pub live : token.revoked_at ≡ none
    pub in_time : draw.now < deadline token
    pub owner : User
    pub known : user_by_id token.user_id db ≡ some owner
    pub available : is_unavailable owner ≡ false
    pub written :
        db'.tokens
        ≡ update_first (holds token_hash settings raw) (revoked draw.now) db.tokens
          ++ record (successor token draw) { user_id = owner.id } ∷ []
    pub raw_returned : r.refresh_token ≡ draw.raw
    pub access : r.access_token ≡ create_access_token settings owner draw (deadline token)

  pub refresh-Rotated :
      (raw : ℕ) (draw : Draw) (db : Db) (r : TokenResponse) (db' : Db)
      → refresh token_hash settings raw draw db ≡ ok (r, db')
      → Rotated raw draw db r db'
  unfolding refresh ◌>>=◌
  refresh-Rotated raw draw db r db' e =
      elim (Option-cases (find (holds token_hash settings raw) db.tokens)) [
        | inl missing ↦ ground arith
        | inr (t, f) ↦ elim (Option-cases (user_by_id t.user_id db)) [
          | inl gone ↦ ground arith
          | inr (u, k) ↦ record {
            token = t;
            found = f;
            live = ground arith;
            in_time = ground arith;
            owner = u;
            known = k;
            available = ground arith;
            written = ground arith;
            raw_returned = ground arith;
            access = ground arith;
          }
        ]
      ]

  -- A refresh token is rotated at most once: after a refresh has succeeded, another with the same
  -- raw token is refused, whenever it is made and whatever it draws.
  pub refresh_once :
      (raw : ℕ) (draw later : Draw) (db : Db) (r : TokenResponse) (db' : Db)
      → refresh token_hash settings raw draw db ≡ ok (r, db')
      → refresh token_hash settings raw later db'
        ≡ err (authentication "Invalid or expired refresh token")
  unfolding refresh ◌>>=◌
  refresh_once raw draw later db r db' e = once (refresh-Rotated raw draw db r db' e)
    where
      once :
          Rotated raw draw db r db'
          → refresh token_hash settings raw later db'
            ≡ err (authentication "Invalid or expired refresh token")
      once w =
          let again : find (holds token_hash settings raw) db'.tokens
              ≡ some (revoked draw.now w.token) =
            rw w.written (
              find-update_first (holds token_hash settings raw) (revoked draw.now) db.tokens
                (record (successor w.token draw) { user_id = w.owner.id } ∷ []) w.token w.found
                (find-holds (holds token_hash settings raw) db.tokens w.token w.found)) in
          ground arith
