-- ===== src/Auth/Rotation.antt =====
-- internal/service/auth/rotation.go
pub mod Retires
pub mod Granted
pub mod Replay
pub mod Stale
pub mod Family
pub mod Single
use goauth_server.Prelude.{
  ◌*◌, String, not, Option, none, some, List, [], ◌∷◌, ◌==◌, str_eq, str_ptr, is_true,
  if◌then◌else◌,
}
use goauth_server.Model.{Uuid, Client, RefreshToken}
use goauth_server.Environment.{Environment}
use goauth_server.Exec.{
  M, client_not_found, client_inactive, invalid_client_secret, invalid_grant, token_expired, wrap,
  ◌>>=◌, ◌>>◌, pure, raise, map_error, ignore, guard, lift_option, not_found_as,
}
use goauth_server.Repository.Clients.{get_client}
use goauth_server.Repository.Users.{get_user_by_id}
use goauth_server.Repository.AccessTokens.{create_access_token}
use goauth_server.Repository.RefreshTokens.{
  create_refresh_token, get_refresh_token_by_hash, mark_refresh_token_used,
  revoke_refresh_token_family,
}
use goauth_server.Repository.Audit.{
  EventType, AuditEntry, replay_detected, refresh_token_family_revoked, refresh_token_rotated,
  audit,
}
use goauth_server.Auth.Service.{
  Service, TokenResponse, duration, add_time, after, whole_seconds, expiry, hour, sha256_hex,
  time_now, generate_secure_token, generate_access_token,
}

-- An entry about a user and a client.
abbrev pub token_entry : EventType → Uuid → Uuid → List (String × String) → AuditEntry
token_entry event user client metadata = record {
  event_type = event;
  user_id = some user;
  client_id = some client;
  actor_id = none;
  ip_address = none;
  metadata = metadata;
}

-- The client is active and its secret has the stored hash (ConstantTimeCompare is equality).
unfoldable pub check_client : Environment → Client → String → M (Unit {0})
check_client e client secret = do
  guard (is_true client.is_active) client_inactive
  guard (str_eq client.client_secret_hash (sha256_hex e secret)) invalid_client_secret

module _ (e : Environment) (s : Service) where
  -- step 1
  unfoldable pub authenticate_client : String → String → M Uuid
  unfolding check_client
  authenticate_client client_id client_secret = do
    cid ← lift_option invalid_grant (e.parse_uuid client_id)
    client ← map_error (not_found_as client_not_found "getting client") (get_client e cid)
    check_client e client client_secret
    pure cid

  -- step 3: a revoked token is presented
  unfoldable pub handle_replay : RefreshToken → M TokenResponse
  handle_replay old = do
    ignore (revoke_refresh_token_family e old.token_family_id (str_ptr "replay_detected"))
    audit e s.audited (
        token_entry replay_detected old.user_id old.client_id
          (("family_id", e.uuid_string old.token_family_id) ∷ []))
    audit e s.audited (
        token_entry refresh_token_family_revoked old.user_id old.client_id
          (("family_id", e.uuid_string old.token_family_id) ∷ ("reason", "replay_detected") ∷ []))
    raise invalid_grant

  -- steps 7 and 8: a new access token for the user of the old refresh token
  unfoldable pub issue_access_token : RefreshToken → Uuid → M (String × Uuid × Uuid)
  issue_access_token old cid = do
    user ← map_error (wrap "getting user") (get_user_by_id e old.user_id)
    token ←
        map_error (wrap "generating access token")
          (generate_access_token e s (e.uuid_string user.id) user.email)
    now ← time_now e
    row ← map_error (wrap "storing access token") (
        create_access_token e (record {
          token_hash = sha256_hex e token;
          client_id = some cid;
          user_id = user.id;
          scope = str_ptr old.scope;
          expires_at = add_time now (expiry s);
        }))
    pure (token, user.id, row.id)

  -- step 9 and 10: a new refresh token of the same family
  unfoldable pub issue_rotated : RefreshToken → Uuid → Uuid → Uuid → M String
  issue_rotated old cid user access_token_id = do
    value ← map_error (wrap "generating new refresh token value") (generate_secure_token e 32)
    now ← time_now e
    let expires_at = add_time now (duration (s.cfg.refresh_token_expiry_days) (24 * hour))
    map_error (wrap "storing new refresh token") (
        create_refresh_token e (record {
          token_hash = sha256_hex e value;
          token_family_id = old.token_family_id;
          client_id = cid;
          user_id = user;
          access_token_id = access_token_id;
          previous_token_id = some old.id;
          scope = old.scope;
          expires_at = expires_at;
        }))
    audit e s.audited (
        token_entry refresh_token_rotated user cid (
          ("family_id", e.uuid_string old.token_family_id)
          ∷ ("scope", old.scope)
          ∷ ("expires_at", e.format_time expires_at)
          ∷ []))
    pure value

  -- steps 4 to 10
  unfoldable pub rotate_record : RefreshToken → Uuid → M TokenResponse
  rotate_record old cid = do
    now ← time_now e
    guard (not (after now old.expires_at)) token_expired
    guard (old.client_id == cid) invalid_grant
    map_error (wrap "marking refresh token as used") (mark_refresh_token_used e old.id)
    (token, user, access_token_id) ← issue_access_token old cid
    value ← issue_rotated old cid user access_token_id
    pure (record {
      access_token = token;
      token_type = "Bearer";
      expires_in = whole_seconds (expiry s);
      scope = str_ptr old.scope;
      refresh_token = value;
    })

  unfoldable pub rotate_refresh_token : String → String → String → M TokenResponse
  rotate_refresh_token raw_token client_id client_secret = do
    cid ← authenticate_client client_id client_secret
    old ←
        map_error (not_found_as invalid_grant "getting refresh token")
          (get_refresh_token_by_hash e (sha256_hex e raw_token))
    if old.is_revoked then handle_replay old else rotate_record old cid
