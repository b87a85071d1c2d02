-- ===== src/Tests/Middleware.antt =====
-- The middleware, applied: an administrator's request that changes state.
use goauth_server.Prelude.{
  List, ℕ, ◌≡◌, ◌≢◌, ◌↔◌, refl, String, true, none, some, [], ◌∷◌, str_eq, select_first,
  if◌then◌else◌,
}
use goauth_server.Environment.{Environment}
use goauth_server.Exec.{ok, World}
use goauth_server.Http.{success, Request, Context, next, or_answer, and_next}
use goauth_server.Repository.AccessTokens.{get_access_token}
use goauth_server.Auth.Service.{validate_access_token, sha256_hex}
use goauth_server.Auth.Revoke.{is_token_revoked, token_revoked}
use goauth_server.Auth.Calls.{rotate, serve}
use goauth_server.UserService.{is_admin}
use goauth_server.Middleware.{
  gate_rate, limiter_key, rate_limit_by_user, protected_route, admin_route,
}
use goauth_server.Middleware.Auth.{
  strip_prefix_fold, bearer_token, check_token, auth_middleware, admin_middleware,
}
use goauth_server.Middleware.Auth.Passed.{Authorized}
use goauth_server.Middleware.Csrf.{
  changes_state, secure_compare, byte_length, differences, verify_csrf, gate_csrf, csrf_middleware,
}
use goauth_server.Middleware.Csrf.Passed.{Source, Echoed, csrf_sound}
use goauth_server.Middleware.Csrf.Compare.{secure_compare_iff}
use goauth_server.Middleware.Routes.{Protected, session_route_sound, admin_sound}
use goauth_server.Api.Auth.{logout}
use goauth_server.Api.Auth.LoggedOut.{logout_ends_session}
use goauth_server.Repository.Users.{update_user_row, unlock_user_account, set_unlocked}
use goauth_server.UserService.{unlock_account}
use goauth_server.Api.Users.{unlock_user}
use goauth_server.Api.Users.Unlocked.{Unlocked, unlock_user_sound}
use goauth_server.Tests.{counting, service, ascii, user2, start, runs}
use goauth_server.Tests.Revocation.{token7, held}

-- Every token is one of the user 1.
abbrev pub accepting : Environment
accepting = record counting {
  parse_es256 = λ n s. some (record {
    user_id = "c1";
    email = "u@example.com";
    expires_at = 100;
    issued_at = 0;
    not_before = 0;
    issuer = "goauth";
  });
}

abbrev header : String → String
header name =
    if str_eq name "Authorization"
    then "Bearer access"
    else if str_eq name "X-CSRF-Token"
    then "xyz"
    else ""

abbrev pub post : Request
post = record {
  method = "POST";
  header = header;
  cookie = λ name. if str_eq name "csrf_token" then some "xyz" else none;
  param = λ name. "c1";
  query = λ name. if str_eq name "limit" then some "xxxxx" else none;
  form = λ name. "";
  form_parses = true;
  basic_auth = none;
  remote_addr = "1.2.3.4:5";
  client_ip = "1.2.3.4";
}

abbrev admins : World
admins = record start {
  db = record start.db { users = record user2 { id = 1; is_admin = some true } ∷ [] };
}

abbrev passed : Context
passed = record { raw_token = some "access"; user_id = some "c1"; email = some "u@example.com" }

gate_passes : (admin_route accepting post admins).0 ≡ ok (next (passed, "xyz"))
unfolding runs admin_route and_next auth_middleware bearer_token strip_prefix_fold check_token
    or_answer validate_access_token is_token_revoked token_revoked get_access_token admin_middleware
    is_admin rate_limit_by_user gate_rate limiter_key csrf_middleware gate_csrf verify_csrf
    changes_state secure_compare byte_length differences
gate_passes = refl

admin_sound_example :
    Protected accepting post admins.db passed "xyz" × Authorized accepting admins.db passed
admin_sound_example = admin_sound accepting post admins passed "xyz" gate_passes

protected_passes : (protected_route accepting post start).0 ≡ ok (next (passed, "xyz"))
unfolding runs protected_route and_next auth_middleware bearer_token strip_prefix_fold check_token
    or_answer validate_access_token is_token_revoked token_revoked get_access_token csrf_middleware
    gate_csrf verify_csrf changes_state secure_compare byte_length differences
protected_passes = refl

session_route_sound_example : Protected accepting post start.db passed "xyz"
session_route_sound_example = session_route_sound accepting post start passed "xyz" protected_passes

csrf_passes : (csrf_middleware accepting post start).0 ≡ ok (next "xyz")
unfolding runs csrf_middleware gate_csrf verify_csrf changes_state secure_compare byte_length
    differences
csrf_passes = refl

csrf_sound_example : Source accepting post "xyz" × Echoed accepting post "xyz"
csrf_sound_example = csrf_sound accepting post start "xyz" csrf_passes

presents : bearer_token post ≡ some "access"
unfolding bearer_token strip_prefix_fold
presents = refl

held_found :
    select_first (λ r. str_eq r.token_hash (sha256_hex accepting "access")) held.db.access_tokens
    ≡ some token7
unfolding runs
held_found = refl

logout_ends_session_example :
    (auth_middleware accepting post (
      serve accepting service ascii (rotate "t" "c1" "pw" ∷ []) (logout accepting passed held).1)).0
    ≢ ok (next passed)
logout_ends_session_example =
    logout_ends_session accepting service ascii held passed "access" token7 refl held_found refl
      refl (rotate "t" "c1" "pw" ∷ []) post passed presents

abbrev bytes : List ℕ
bytes = 1 ∷ 2 ∷ []

abbrev others : List ℕ
others = 1 ∷ 3 ∷ []

secure_compare_iff_example : (secure_compare bytes others ≡ true) ↔ (bytes ≡ others)
secure_compare_iff_example = secure_compare_iff bytes others

abbrev locked : World
locked = record start {
  db = record start.db { users = record user2 { id = 1; locked_until = some 50 } ∷ [] };
}

unlocks : (unlock_user counting true passed post locked).0 ≡ ok (success 204 tt)
unfolding runs unlock_user unlock_account unlock_user_account set_unlocked or_answer update_user_row
unlocks = refl

unlock_user_sound_example :
    Unlocked counting service 1 (unlock_user counting true passed post locked).1.db
unlock_user_sound_example =
    unlock_user_sound counting service true passed post 1 locked refl unlocks
