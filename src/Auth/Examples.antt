-- ===== src/Auth/Examples.antt =====
-- Sample runs of a login session.
use cestos_oversight.Base.{
  ◌≡◌, refl, ℕ, ◌+◌, ◌≤◌, ◌<◌, Bool, true, none, some, [], ◌∷◌, ◌==◌, if◌then◌else◌, arith,
}
use cestos_oversight.Base.Action.{◌>>=◌, ok, err, authentication}
use cestos_oversight.Auth.{
  Settings, User, Draw, Db, TokenResponse, RefreshToken, login, refresh, logout, login_event,
  logout_event,
}
use cestos_oversight.Auth.Rotation.{refresh_once}
use cestos_oversight.Auth.Sessions.{Lineage, began, session_bounded}
use cestos_oversight.Auth.Logout.{logout_refuses, logout_idempotent}

abbrev settings : Settings
settings = record { access_token_expire_minutes = 15; login_session_hours = 12 }

abbrev hash : ℕ → ℕ
hash n = n + 1000

abbrev verify : ℕ → ℕ → Bool
verify password h = h == password + 1

abbrev ada : User
ada = record {
  id = 7;
  organization_id = 1;
  email = b'a' ∷ b'@' ∷ b'c' ∷ [];
  password_hash = 43;
  is_active = true;
  archived_at = none;
  setup_required = Bool.false;
  token_version = 0;
  last_login_at = none;
}

abbrev start : Db
start = record {
  users = ada ∷ [];
  organizations =
      λ o. if o == 1 then some (record { is_active = true; archived_at = none }) else none;
  tokens = [];
  audit = [];
}

abbrev first_draw : Draw
first_draw = record { now = 1000000; raw = 50; jti = 1 }

abbrev next_draw : Draw
next_draw = record { now = 2000000; raw = 51; jti = 2 }

abbrev ada_now : User
ada_now = record ada { last_login_at = some 1000000 }

abbrev first_response : TokenResponse
first_response = record {
  access_token = record { sub = 7; org = 1; ver = 0; iat = 1000000; exp = 901000000; jti = 1 };
  refresh_token = 50;
  expires_in = 900;
}

abbrev first_row : RefreshToken
first_row = record {
  user_id = 7;
  token_hash = 1050;
  created_at = 1000000;
  expires_at = 43201000000;
  revoked_at = none;
}

abbrev logged_in : Db
logged_in = record start {
  users = ada_now ∷ [];
  tokens = first_row ∷ [];
  audit = record { organization_id = 1; actor_user_id = 7; action = login_event } ∷ [];
}

login_run :
    login hash settings verify 0 1 (b'A' ∷ b'@' ∷ b'c' ∷ []) 42 first_draw start
    ≡ ok (first_response, logged_in)
unfolding login cestos_oversight.Auth.create_access_token cestos_oversight.Base.Text.lower ◌>>=◌
login_run = refl

abbrev next_response : TokenResponse
next_response = record {
  access_token = record { sub = 7; org = 1; ver = 0; iat = 2000000; exp = 902000000; jti = 2 };
  refresh_token = 51;
  expires_in = 900;
}

abbrev refreshed : Db
refreshed = record logged_in {
  tokens =
      record first_row { revoked_at = some 2000000 }
      ∷ record first_row { token_hash = 1051; created_at = 2000000 }
      ∷ [];
}

refresh_run : refresh hash settings 50 next_draw logged_in ≡ ok (next_response, refreshed)
unfolding refresh cestos_oversight.Auth.create_access_token ◌>>=◌
refresh_run = refl

abbrev logged_out : Db
logged_out = record logged_in {
  tokens = record first_row { revoked_at = some 3000000 } ∷ [];
  audit =
      record { organization_id = 1; actor_user_id = 7; action = login_event }
      ∷ record { organization_id = 1; actor_user_id = 7; action = logout_event }
      ∷ [];
}

logout_run : logout hash settings 50 3000000 logged_in ≡ ok (tt, logged_out)
unfolding logout ◌>>=◌
logout_run = refl

refresh_once_example :
    refresh hash settings 50 (record { now = 3000000; raw = 52; jti = 3 }) refreshed
    ≡ err (authentication "Invalid or expired refresh token")
refresh_once_example =
    refresh_once hash settings 50 next_draw (record { now = 3000000; raw = 52; jti = 3 }) logged_in
      next_response refreshed refresh_run

lineage : Lineage hash settings 43201000000 50 logged_in
lineage =
    began verify 0 1 (b'A' ∷ b'@' ∷ b'c' ∷ []) 42 first_draw start first_response logged_in
      login_run refl refl

session_bounded_example : (2000000 < 43201000000) × (next_response.access_token.exp ≤ 43201000000)
session_bounded_example =
    session_bounded hash settings next_draw next_response refreshed lineage refresh_run

logout_refuses_example :
    refresh hash settings 50 next_draw logged_out
    ≡ err (authentication "Invalid or expired refresh token")
logout_refuses_example =
    logout_refuses hash settings 50 3000000 next_draw logged_in logged_out logout_run

logout_idempotent_example : logout hash settings 50 4000000 logged_out ≡ ok (tt, logged_out)
logout_idempotent_example =
    logout_idempotent hash settings 50 3000000 4000000 logged_in logged_out logout_run
