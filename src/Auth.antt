-- ===== src/Auth.antt =====
-- Login sessions (app/services/auth.py, with app/core/security.py, app/repositories/user.py and
-- app/services/organization.py): refresh tokens, their rotation, and access tokens.
-- Times are microseconds since the epoch. The raw refresh token that `secrets` draws and the
-- identifier of an access token are arguments; the password hash and the token hash are parameters.
pub mod Rotation
pub mod Sessions
pub mod Logout
mod Examples
use cestos_oversight.Base.{
  ℕ, ◌+◌, ◌-◌, ◌*◌, ◌/◌, Option, none, some, List, [], ◌∷◌, ◌++◌, Bool, ◌&&◌, ◌||◌, not, ◌==◌, leb,
  if◌then◌else◌, is_set, get_or, find, update_first, min,
}
use cestos_oversight.Base.Table.{Table}
use cestos_oversight.Base.Text.{Text, lower, ◌=ᵗ◌}
use cestos_oversight.Base.Action.{
  Action, authentication, pure, or_raise, gets, modify, raise_if, ◌>>=◌, ◌>>◌,
}

abbrev pub minutes : ℕ → ℕ
minutes n = n * 60 * 1000000

abbrev pub hours : ℕ → ℕ
hours n = n * 3600 * 1000000

-- app/core/config.py, the two session limits
pub record Settings : Type 0 where
  pub access_token_expire_minutes : ℕ
  pub login_session_hours : ℕ

pub record User : Type 0 where
  pub id : ℕ
  pub organization_id : ℕ
  pub email : Text
  pub password_hash : ℕ
  pub is_active : Bool
  pub archived_at : Option ℕ
  pub setup_required : Bool
  pub token_version : ℕ
  pub last_login_at : Option ℕ

pub record Organization : Type 0 where
  pub is_active : Bool
  pub archived_at : Option ℕ

pub record RefreshToken : Type 0 where
  pub user_id : ℕ
  pub token_hash : ℕ
  pub created_at : ℕ
  pub expires_at : ℕ
  pub revoked_at : Option ℕ

-- The claims of an access token; its issuer, audience and type are constants.
pub record AccessToken : Type 0 where
  pub sub : ℕ
  pub org : ℕ
  pub ver : ℕ
  pub iat : ℕ
  pub exp : ℕ
  pub jti : ℕ

pub record TokenResponse : Type 0 where
  pub access_token : AccessToken
  pub refresh_token : ℕ
  pub expires_in : ℕ

pub data AuditAction : Type 0 where
  login_event logout_event : AuditAction

pub record AuditLog : Type 0 where
  pub organization_id : ℕ
  pub actor_user_id : ℕ
  pub action : AuditAction

pub record Db : Type 0 where
  pub users : List User
  pub organizations : Table Organization
  pub tokens : List RefreshToken
  pub audit : List AuditLog

-- What a call draws from outside: the clock, the new raw token and the new token id.
pub record Draw : Type 0 where
  pub now : ℕ
  pub raw : ℕ
  pub jti : ℕ

-- `require_active_organization`
pub require_active_organization : ℕ → Action Db Organization
require_active_organization organization_id = do
  found ← gets (λ db. db.organizations organization_id)
  organization ← or_raise found (authentication "Organization is unavailable")
  raise_if (not organization.is_active || is_set organization.archived_at)
      (authentication "Organization is unavailable")
  pure organization

-- `UserRepository.by_email`
abbrev pub by_email : ℕ → Text → Db → Option User
by_email organization_id email db =
    find (λ u. (u.organization_id == organization_id) && (u.email =ᵗ lower email)) db.users

-- `session.get(User, id)`
abbrev pub user_by_id : ℕ → Db → Option User
user_by_id id db = find (λ u. u.id == id) db.users

-- `not user.is_active or user.archived_at is not None or user.setup_required`
pub is_unavailable : User → Bool
is_unavailable u = not u.is_active || is_set u.archived_at || u.setup_required

-- `create_access_token` with a deadline
pub create_access_token : Settings → User → Draw → ℕ → AccessToken
create_access_token settings u draw expires_at = record {
  sub = u.id;
  org = u.organization_id;
  ver = u.token_version;
  iat = draw.now;
  exp = min (draw.now + minutes settings.access_token_expire_minutes) expires_at;
  jti = draw.jti;
}

-- `user.password_hash if user else DUMMY_HASH`
abbrev pub stored_hash : ℕ → Option User → ℕ
stored_hash dummy none = dummy
stored_hash dummy (some u) = u.password_hash

module _ (token_hash : ℕ → ℕ) (settings : Settings) where
  -- `issue_tokens`, with the session's deadline or the start of a new session
  pub issue_tokens : User → Option ℕ → Draw → Action Db TokenResponse
  unfolding create_access_token
  issue_tokens u session_expires_at draw = do
    let deadline = get_or session_expires_at (draw.now + hours settings.login_session_hours)
    modify (λ db. record db {
      tokens =
          db.tokens
          ++ record {
            user_id = u.id;
            token_hash = token_hash draw.raw;
            created_at = draw.now;
            expires_at = deadline;
            revoked_at = none;
          }
            ∷ [];
    })
    pure (record {
      access_token = create_access_token settings u draw deadline;
      refresh_token = draw.raw;
      expires_in =
          min (settings.access_token_expire_minutes * 60) ((deadline - draw.now) / 1000000);
    })

  -- `login`; `verify` is the password check, and `dummy` the hash that stands for a missing user.
  pub login : (ℕ → ℕ → Bool) → ℕ → ℕ → Text → ℕ → Draw → Action Db TokenResponse
  unfolding require_active_organization is_unavailable issue_tokens
  login verify dummy organization_id email password draw = do
    found ← gets (by_email organization_id email)
    let valid = verify password (stored_hash dummy found)
    raise_if (not valid) (authentication "Invalid credentials")
    u ← or_raise found (authentication "Invalid credentials")
    raise_if (is_unavailable u) (authentication "Invalid credentials")
    require_active_organization u.organization_id
    modify (λ db. record db {
      users =
          update_first (λ v. v.id == u.id) (λ v. record v { last_login_at = some draw.now })
            db.users;
    })
    tokens ← issue_tokens u none draw
    modify (λ db. record db {
      audit =
          db.audit
          ++ record {
            organization_id = u.organization_id;
            actor_user_id = u.id;
            action = login_event;
          }
            ∷ [];
    })
    pure tokens

  -- The row that `refresh` and `logout` lock.
  abbrev pub holds : ℕ → RefreshToken → Bool
  holds raw t = t.token_hash == token_hash raw

  -- `refresh`
  pub refresh : ℕ → Draw → Action Db TokenResponse
  unfolding require_active_organization is_unavailable issue_tokens
  refresh raw draw = do
    found ← gets (λ db. find (holds raw) db.tokens)
    token ← or_raise found (authentication "Invalid or expired refresh token")
    raise_if (is_set token.revoked_at || leb token.expires_at draw.now)
        (authentication "Invalid or expired refresh token")
    let deadline = min token.expires_at (token.created_at + hours settings.login_session_hours)
    raise_if (leb deadline draw.now) (authentication "Login session expired. Sign in again.")
    owner ← gets (user_by_id token.user_id)
    u ← or_raise owner (authentication "User is unavailable")
    raise_if (is_unavailable u) (authentication "User is unavailable")
    require_active_organization u.organization_id
    modify (λ db. record db {
      tokens = update_first (holds raw) (λ t. record t { revoked_at = some draw.now }) db.tokens;
    })
    issue_tokens u (some deadline) draw

  -- `logout`, at the time `now`
  revoke : ℕ → ℕ → RefreshToken → Action Db (Unit {0})
  revoke raw now token = do
    modify (λ db. record db {
      tokens = update_first (holds raw) (λ t. record t { revoked_at = some now }) db.tokens;
    })
    owner ← gets (user_by_id token.user_id)
    modify (λ db. record db {
      audit = elim owner [
        | none ↦ db.audit
        | some u ↦
            db.audit
            ++ record {
              organization_id = u.organization_id;
              actor_user_id = u.id;
              action = logout_event;
            }
              ∷ []
      ];
    })

  pub logout : ℕ → ℕ → Action Db (Unit {0})
  unfolding revoke
  logout raw now = do
    found ← gets (λ db. find (holds raw) db.tokens)
    elim found [
      | none ↦ pure tt
      | some token ↦ if is_set token.revoked_at then pure tt else revoke raw now token
    ]
