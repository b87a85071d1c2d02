-- ===== src/Tests.antt =====
-- A small world in which the theorems are applied: one client, one user, one authorization code and
-- one refresh token, and an environment that answers by counting.
pub mod Rotation
pub mod Exchange
pub mod Login
pub mod Password
pub mod Revocation
pub mod Lockout
pub mod Middleware
pub mod Clients
pub mod Providers
pub mod Web
use goauth_server.Prelude.{
  ℕ, zero, suc, ◌+◌, String, true, false, none, some, List, [], ◌∷◌, codes, select_first,
  update_where, exists, str_ptr, contains, split, cut, parse_uint32, str_append, str_eq, leb,
  if◌then◌else◌, ◌&&◌,
}
use goauth_server.Model.{Client, User, AuthorizationCode, OauthProvider, RefreshToken}
use goauth_server.Environment.{Environment}
use goauth_server.Exec.{
  World, ◌>>=◌, lift_option, lift_result, map_error, statement, guard, pure, raise, ask, ignore,
  attempt, when,
}
use goauth_server.Repository.Clients.{get_client}
use goauth_server.Repository.RefreshTokens.{
  get_refresh_token_by_hash, mark_refresh_token_used, create_refresh_token, new_refresh_token,
  mark_used, mark_revoked, revoke_refresh_token_family,
}
use goauth_server.Repository.AccessTokens.{create_access_token, new_access_token}
use goauth_server.Repository.Users.{get_user_by_id}
use goauth_server.Repository.Audit.{
  audit, create_audit_log_entry, event_string, log_event, new_audit_log,
}
use goauth_server.Password.{Unicode}
use goauth_server.Auth.Service.{
  Service, sha256_hex, time_now, new_uuid, add_time, duration, expiry, whole_seconds,
  generate_access_token, generate_random_bytes, generate_secure_token,
}
use goauth_server.Auth.Rotation.{
  authenticate_client, check_client, handle_replay, issue_access_token, issue_rotated,
  rotate_record, rotate_refresh_token,
}

abbrev pub unary : ℕ → String
unary zero = ""
unary (suc n) = String.◌∷◌ "x" (unary n)

abbrev pub total : List ℕ → ℕ
total [] = 0
total (n ∷ ns) = n + total ns

-- A digest is the length of the text, in unary; the n-th UUID is 1000 + n, and the n-th time n.
abbrev pub chars : String → ℕ
chars String.[] = 0
chars (String.◌∷◌ c s) = suc (chars s)

abbrev pub counting : Environment
counting = record {
  fails = λ n. false;
  time = λ n. n;
  uuid = λ n. 1000 + n;
  allows = λ n key. true;
  quote = λ s. s;
  valid_address = λ s. true;
  collates = λ s t. true;
  random = λ n k. some ((20 + n) ∷ []);
  sha256_sum = λ s. chars s ∷ [];
  hex_encode = λ l. unary (total l);
  base64_url_encode = λ l. unary (total l);
  parse_uuid = λ s. if str_eq s "c1" then some 1 else none;
  uuid_string = λ u. unary u;
  format_time = λ t. "t";
  sign_es256 = λ n claims. some (unary (80 + n));
  parse_es256 = λ n s. none;
  base64_encode = λ l. "s";
  base64_decode = λ s. some (1 ∷ []);
  id_key = λ p salt t m q n. some (chars p ∷ []);
  utf8 = codes;
  hex_decode = λ s. some (codes s);
  base64_url_decode = λ s. some (codes s);
  trim_space = λ s. s;
  parse_request_uri = λ s.
      if str_eq s "https://app/cb"
      then some (record { scheme = "https"; host = "app"; hostname = "app" })
      else none;
  atoi = λ s. none;
  parse_bool = λ s. none;
  gcm_seal = λ key nonce s. codes s;
  gcm_open = λ key nonce c. some "secret";
  hmac_sha256 = λ key s. codes s;
  marshal_session = λ s. [];
  unmarshal_session = λ b. none;
  sign_hs256 = λ key claims. some claims.subject;
  parse_hs256 = λ n key s. none;
  auth_code_url = λ c state. c.auth_url;
  exchange_code = λ n c code. some code;
  get_user_info = λ n token url. none;
  with_code = λ s code. some s;
}

abbrev pub service : Service
service = record {
  cfg = record {
    app_name = "goauth-server";
    access_token_expiry = 60;
    refresh_token_expiry_days = 30;
    max_attempts = 5;
    window_seconds = 600;
    duration_seconds = 900;
    session_signing_key = "00";
  };
  audited = true;
}

abbrev pub ascii : Unicode
ascii = record {
  is_upper = λ r. leb 65 r && leb r 90;
  is_lower = λ r. leb 97 r && leb r 122;
  is_digit = λ r. leb 48 r && leb r 57;
  to_lower = λ s. s;
}

-- The secret of the client has two characters.
abbrev pub client1 : Client
client1 = record {
  id = 1;
  name = "app";
  description = none;
  client_secret_hash = "xx";
  redirect_uris = "https://app/cb" ∷ [];
  grant_types = "authorization_code" ∷ [];
  is_active = some true;
  created_by = 2;
  created_at = 0;
  updated_at = 0;
  is_confidential = true;
  allow_refresh_tokens = true;
}

abbrev pub user2 : User
user2 = record {
  id = 2;
  email = "u@example.com";
  email_verified = true;
  first_name = none;
  last_name = none;
  is_active = true;
  locale = "en-US";
  provider = none;
  provider_id = none;
  last_login_at = 0;
  created_at = 0;
  updated_at = 0;
  is_admin = some false;
  password_hash = some "$argon2id$v=19$m=65536,t=3,p=4$s$h";
  force_password_change = true;
  failed_login_attempts = 4;
  last_failed_login_at = some 0;
  locked_until = none;
}

-- The refresh token is any text of one character.
abbrev pub token3 : RefreshToken
token3 = record {
  id = 3;
  token_family_id = 30;
  token_hash = "x";
  client_id = 1;
  user_id = 2;
  access_token_id = 4;
  previous_token_id = none;
  scope = "openid offline_access";
  expires_at = 100;
  is_revoked = false;
  revoked_at = none;
  revoke_reason = none;
  used_at = none;
  created_at = 0;
}

-- its successor
abbrev pub token4 : RefreshToken
token4 = record token3 { id = 4; token_hash = "yy"; previous_token_id = some 3 }

abbrev pub code5 : AuthorizationCode
code5 = record {
  id = 5;
  code = "code";
  client_id = 1;
  user_id = 2;
  provider_id = 6;
  redirect_uri = "https://app/cb";
  scope = some "openid offline_access";
  state = none;
  code_challenge = none;
  code_challenge_method = none;
  expires_at = 100;
  used_at = none;
  is_revoked = some false;
  created_at = 0;
}

abbrev pub provider6 : OauthProvider
provider6 = record {
  id = 6;
  client_id = 1;
  name = "idp";
  display_name = "Provider";
  provider_client_id = "goauth";
  provider_client_secret = "xxxxxxxxxxxxxxxx";
  auth_url = "https://idp/auth";
  token_url = "https://idp/token";
  user_info_url = "https://idp/me";
  scopes = "openid" ∷ [];
  is_enabled = some true;
  created_at = 0;
  updated_at = 0;
}

abbrev pub start : World
start = record {
  tick = 0;
  db = record {
    clients = client1 ∷ [];
    users = user2 ∷ [];
    providers = provider6 ∷ [];
    codes = code5 ∷ [];
    access_tokens = [];
    refresh_tokens = token3 ∷ [];
    audit_log = [];
  };
}

-- What a run computes through.
unfoldable pub runs : Unit {0}
unfolding ◌>>=◌ lift_option lift_result map_error statement guard pure raise ask ignore attempt when
    select_first update_where exists codes str_ptr contains split cut parse_uint32 str_append
    get_client get_refresh_token_by_hash mark_refresh_token_used create_refresh_token
    new_refresh_token mark_used mark_revoked revoke_refresh_token_family create_access_token
    new_access_token get_user_by_id audit create_audit_log_entry event_string log_event
    new_audit_log sha256_hex time_now new_uuid add_time duration expiry whole_seconds
    generate_access_token generate_random_bytes generate_secure_token authenticate_client
    check_client handle_replay issue_access_token issue_rotated rotate_record rotate_refresh_token
runs = tt
