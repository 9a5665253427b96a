-- ===== src/Auth/Sessions.antt =====
-- A login session over its whole life (app/services/auth.py): login, refreshes, logout.
use cestos_oversight.Base.{
  ℕ, ◌+◌, ◌-◌, ◌*◌, ◌/◌, min, is_set, ◌==◌, ◌≤◌, ◌<◌, ◌≡◌, refl, sym, ◌∙◌, none, some, List, [],
  ◌∷◌, ◌++◌, Bool, true, false, arith, inl, inr, Option-cases, find, update_first,
}
use cestos_oversight.Base.Text.{Text}
use cestos_oversight.Base.Action.{◌>>=◌, ok}
use cestos_oversight.Auth.{
  Settings, User, Organization, AuditLog, login_event, RefreshToken, Draw, Db, TokenResponse, hours,
  holds, login, refresh, is_unavailable, create_access_token, by_email,
}
use cestos_oversight.Auth.Rotation.{Rotated, refresh-Rotated, revoked, successor}

find-append :
    {A : Type 0} (p : A → Bool) (xs : List A) (a : A)
    → find p xs ≡ none
    → p a ≡ true
    → find p (xs ++ a ∷ []) ≡ some a
find-append p [] a e h = ground arith
find-append p (x ∷ xs) a e h = ground (arith, find-append p xs a)

find-update_none :
    {A : Type 0} (p q : A → Bool) (f : A → A) (xs : List A)
    → ((a : A) → q (f a) ≡ q a)
    → find q xs ≡ none
    → find q (update_first p f xs) ≡ none
find-update_none p q f [] same e = refl
find-update_none p q f (x ∷ xs) same e = ground (arith, same x, find-update_none p q f xs same)

module _ (token_hash : ℕ → ℕ) (settings : Settings) where
  abbrev is_held : ℕ → RefreshToken → Bool
  is_held = holds token_hash settings

  -- The row that a login adds.
  abbrev first_token : User → Draw → RefreshToken
  first_token u draw = record {
    user_id = u.id;
    token_hash = token_hash draw.raw;
    created_at = draw.now;
    expires_at = draw.now + hours settings.login_session_hours;
    revoked_at = none;
  }

  abbrev login_entry : User → AuditLog
  login_entry u = record {
    organization_id = u.organization_id;
    actor_user_id = u.id;
    action = login_event;
  }

  abbrev first_response : User → Draw → TokenResponse
  first_response u draw =
      let deadline = draw.now + hours settings.login_session_hours in
      record {
        access_token = create_access_token settings u draw deadline;
        refresh_token = draw.raw;
        expires_in =
            min (settings.access_token_expire_minutes * 60) ((deadline - draw.now) / 1000000);
      }

  -- What a successful `login` found, wrote and returned.
  pub record LoggedIn (verify : ℕ → ℕ → Bool) (organization_id : ℕ) (email : Text) (password : ℕ)
      (draw : Draw) (db : Db) (r : TokenResponse) (db' : Db) : Type 0 where
    pub user : User
    pub organization : Organization
    pub known : by_email organization_id email db ≡ some user
    pub valid : verify password user.password_hash ≡ true
    pub available : is_unavailable user ≡ false
    pub there : db.organizations user.organization_id ≡ some organization
    pub is_open : organization.is_active ≡ true
    pub kept : is_set organization.archived_at ≡ false
    pub stamped :
        db'.users
        ≡ update_first
            (λ v. v.id == user.id)
            (λ v. record v { last_login_at = some draw.now })
            db.users
    pub organizations : db'.organizations ≡ db.organizations
    pub written : db'.tokens ≡ db.tokens ++ first_token user draw ∷ []
    pub audited : db'.audit ≡ db.audit ++ login_entry user ∷ []
    pub response : r ≡ first_response user draw

  login-LoggedIn :
      (verify : ℕ → ℕ → Bool) (dummy organization_id : ℕ) (email : Text) (password : ℕ)
      (draw : Draw) (db : Db) (r : TokenResponse) (db' : Db)
      → login token_hash settings verify dummy organization_id email password draw db ≡ ok (r, db')
      → LoggedIn verify organization_id email password draw db r db'
  unfolding login ◌>>=◌
  login-LoggedIn verify dummy organization_id email password draw db r db' e =
      elim (Option-cases (by_email organization_id email db)) [
        | inl missing ↦ ground arith
        | inr (u, k) ↦ elim (Option-cases (db.organizations u.organization_id)) [
          | inl missing ↦ ground arith
          | inr (o, h) ↦ record {
            user = u;
            organization = o;
            known = k;
            valid = ground arith;
            available = ground arith;
            there = h;
            is_open = ground arith;
            kept = ground arith;
            stamped = ground arith;
            organizations = ground arith;
            written = ground arith;
            audited = ground arith;
            response = ground arith;
          }
        ]
      ]

  -- The states in which the newest raw token of a session that must end by `limit` is `raw`. Calls
  -- of other sessions leave the token's row alone, and `secrets` draws no raw token twice.
  pub data Lineage (limit : ℕ) : ℕ → Db → Type 0 where
    began :
        (verify : ℕ → ℕ → Bool) (dummy organization_id : ℕ) (email : Text) (password : ℕ)
        (draw : Draw) (db : Db) (r : TokenResponse) (db' : Db)
        → login token_hash settings verify dummy organization_id email password draw db
          ≡ ok (r, db')
        → find (is_held draw.raw) db.tokens ≡ none
        → limit ≡ draw.now + hours settings.login_session_hours
        → Lineage limit draw.raw db'
    idle :
        {raw : ℕ} {db : Db} (db' : Db)
        → Lineage limit raw db
        → find (is_held raw) db'.tokens ≡ find (is_held raw) db.tokens
        → Lineage limit raw db'
    rotated :
        {raw : ℕ} {db : Db} (draw : Draw) (r : TokenResponse) (db' : Db)
        → Lineage limit raw db
        → refresh token_hash settings raw draw db ≡ ok (r, db')
        → find (is_held draw.raw) db.tokens ≡ none
        → Lineage limit draw.raw db'

  began-le :
      (draw : Draw) (u : User) (db db' : Db) (t : RefreshToken)
      → db'.tokens ≡ db.tokens ++ first_token u draw ∷ []
      → find (is_held draw.raw) db.tokens ≡ none
      → find (is_held draw.raw) db'.tokens ≡ some t
      → t.expires_at ≤ draw.now + hours settings.login_session_hours
  began-le draw u db db' t written fresh f =
      ground (arith, written, find-append (is_held draw.raw) db.tokens (first_token u draw) fresh)

  Rotated-le :
      (raw : ℕ) (draw : Draw) (db db' : Db) (r : TokenResponse) (t : RefreshToken)
      (w : Rotated token_hash settings raw draw db r db')
      → find (is_held draw.raw) db.tokens ≡ none
      → find (is_held draw.raw) db'.tokens ≡ some t
      → t.expires_at ≤ w.token.expires_at
  Rotated-le raw draw db db' r t w fresh f = ground (
    arith,
    w.written,
    find-append (is_held draw.raw)
        (update_first (is_held raw) (revoked token_hash settings draw.now) db.tokens)
        (record (successor token_hash settings w.token draw) { user_id = w.owner.id })
        (find-update_none (is_held raw) (is_held draw.raw) (revoked token_hash settings draw.now)
          db.tokens (λ a. refl) fresh),
  )

  Lineage-le :
      {limit raw : ℕ} {db : Db} (t : RefreshToken)
      → Lineage limit raw db
      → find (is_held raw) db.tokens ≡ some t
      → t.expires_at ≤ limit
  Lineage-le t (began verify dummy o email p draw db r db' e fresh l) f =
      let w = login-LoggedIn verify dummy o email p draw db r db' e in
      rw l (began-le draw w.user db db' t w.written fresh f)
  Lineage-le t (idle db' before same) f = Lineage-le t before (sym same ∙ f)
  Lineage-le t (rotated {raw = raw} {db = db} draw r db' before e fresh) f =
      let w = refresh-Rotated token_hash settings raw draw db r db' e in
      omega (arith, Lineage-le w.token before w.found, Rotated-le raw draw db db' r t w fresh f)

  -- However often a session is refreshed, it ends when the hours that the login allowed are over:
  -- a refresh succeeds only before that time, and gives an access token that expires by it.
  pub session_bounded :
      {limit raw : ℕ} {db : Db} (draw : Draw) (r : TokenResponse) (db' : Db)
      → Lineage limit raw db
      → refresh token_hash settings raw draw db ≡ ok (r, db')
      → (draw.now < limit) × (r.access_token.exp ≤ limit)
  unfolding create_access_token
  session_bounded {raw = raw} {db = db} draw r db' before e =
      let w = refresh-Rotated token_hash settings raw draw db r db' e in
      let le = Lineage-le w.token before w.found in
      let in_time = w.in_time in (omega arith, rw w.access (omega arith))
