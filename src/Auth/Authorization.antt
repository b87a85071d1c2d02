-- ===== src/Auth/Authorization.antt =====
-- internal/service/auth/authorization.go: the token exchange. (Its revocation methods are in Revoke.)
pub mod Spent
pub mod Granted
use goauth_server.Prelude.{
  ◌*◌, String, not, ◌&&◌, none, some, [], ◌∷◌, ◌==◌, str_eq, is_true, is_some, contains, or_empty,
  if◌then◌else◌,
}
use goauth_server.Model.{Uuid, Client, AuthorizationCode}
use goauth_server.Environment.{Environment}
use goauth_server.Exec.{
  M, client_not_found, code_not_found, code_revoked, code_used, code_expired, code_client_mismatch,
  code_redirect_mismatch, wrap, ◌>>=◌, ◌>>◌, pure, map_error, guard, not_found_as,
}
use goauth_server.Repository.Clients.{get_client}
use goauth_server.Repository.Users.{get_user_by_id}
use goauth_server.Repository.Codes.{get_authorization_code, mark_authorization_code_used}
use goauth_server.Repository.AccessTokens.{create_access_token}
use goauth_server.Repository.RefreshTokens.{create_refresh_token}
use goauth_server.Repository.Audit.{refresh_token_issued, audit}
use goauth_server.Auth.Service.{
  Service, TokenResponse, duration, add_time, after, whole_seconds, expiry, hour, sha256_hex,
  time_now, new_uuid, generate_secure_token, generate_access_token,
}
use goauth_server.Auth.Rotation.{token_entry, check_client}

module _ (e : Environment) (s : Service) where
  -- step 3: the guards on the code, in the order of the source
  unfoldable pub check_code : AuthorizationCode → Uuid → String → M (Unit {0})
  unfolding time_now
  check_code c client_id redirect_uri = do
    guard (not (is_true c.is_revoked)) code_revoked
    guard (not (is_some c.used_at)) code_used
    now ← time_now e
    guard (not (after now c.expires_at)) code_expired
    guard (c.client_id == client_id) code_client_mismatch
    guard (str_eq c.redirect_uri redirect_uri) code_redirect_mismatch

  -- steps 5 to 7
  unfoldable pub issue_code_token : AuthorizationCode → Uuid → M (String × Uuid × Uuid)
  issue_code_token c client_id = do
    user ← map_error (wrap "getting user") (get_user_by_id e c.user_id)
    token ←
        map_error (wrap "generating access token")
          (generate_access_token e s (e.uuid_string user.id) user.email)
    now ← time_now e
    row ← map_error (wrap "storing access token record") (
        create_access_token e (record {
          token_hash = sha256_hex e token;
          client_id = some client_id;
          user_id = user.id;
          scope = c.scope;
          expires_at = add_time now (expiry s);
        }))
    pure (token, user.id, row.id)

  -- step 8: the first refresh token of a new family
  unfoldable pub issue_refresh_token : AuthorizationCode → Uuid → Uuid → Uuid → M String
  issue_refresh_token c client_id user access_token_id = do
    value ← map_error (wrap "generating refresh token") (generate_secure_token e 32)
    family ← new_uuid e
    now ← time_now e
    let expires_at = add_time now (duration s.cfg.refresh_token_expiry_days (24 * hour))
    map_error (wrap "storing refresh token") (
        create_refresh_token e (record {
          token_hash = sha256_hex e value;
          token_family_id = family;
          client_id = client_id;
          user_id = user;
          access_token_id = access_token_id;
          previous_token_id = none;
          scope = or_empty c.scope;
          expires_at = expires_at;
        }))
    audit e s.audited (
        token_entry refresh_token_issued user client_id
          (("scope", or_empty c.scope) ∷ ("expires_at", e.format_time expires_at) ∷ []))
    pure value

  -- steps 4 to 8, for a code that passed the guards
  unfoldable pub redeem_code : Client → AuthorizationCode → Uuid → M TokenResponse
  redeem_code client c client_id = do
    map_error (wrap "marking authorization code as used") (mark_authorization_code_used e c.id)
    (token, user, access_token_id) ← issue_code_token c client_id
    raw_refresh_token ←
        if client.allow_refresh_tokens && contains (or_empty c.scope) "offline_access"
        then issue_refresh_token c client_id user access_token_id
        else pure ""
    pure (record {
      access_token = token;
      token_type = "Bearer";
      expires_in = whole_seconds (expiry s);
      scope = c.scope;
      refresh_token = raw_refresh_token;
    })

  unfoldable pub exchange_code_for_token : String → Uuid → String → String → M TokenResponse
  exchange_code_for_token code client_id client_secret redirect_uri = do
    client ← map_error (not_found_as client_not_found "getting client") (get_client e client_id)
    check_client e client client_secret
    c ←
        map_error (not_found_as code_not_found "getting authorization code")
          (get_authorization_code e code)
    check_code c client_id redirect_uri
    redeem_code client c client_id
