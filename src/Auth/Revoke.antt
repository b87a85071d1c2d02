-- ===== src/Auth/Revoke.antt =====
-- internal/service/auth/revoke.go, and the revocation methods of authorization.go
pub mod Revoked
use goauth_server.Prelude.{
  String, Bool, false, Option, none, some, [], ◌∷◌, ◌==◌, str_eq, str_ptr, is_true, if◌then◌else◌,
}
use goauth_server.Model.{Uuid, Client, AccessToken, RefreshToken, nil_uuid}
use goauth_server.Environment.{Environment}
use goauth_server.Exec.{
  Result, ok, err, M, token_not_found, is_no_rows, wrap, ◌>>=◌, ◌>>◌, pure, raise, map_error,
  ignore, attempt, not_found_as,
}
use goauth_server.Repository.Clients.{get_client}
use goauth_server.Repository.AccessTokens.{
  get_access_token, get_access_token_by_id, revoke_access_token, revoke_access_tokens_by_user,
}
use goauth_server.Repository.RefreshTokens.{
  get_refresh_token_by_hash, revoke_refresh_token, revoke_refresh_tokens_by_user,
}
use goauth_server.Repository.Audit.{refresh_token_revoked, access_token_revoked, audit}
use goauth_server.Auth.Service.{Service, sha256_hex}
use goauth_server.Auth.Rotation.{token_entry}

module _ (e : Environment) (s : Service) where
  unfoldable pub revoke_access_token_record : AccessToken → M (Unit {0})
  revoke_access_token_record t = if is_true t.is_revoked then pure tt else do
    map_error (wrap "revoking access token") (revoke_access_token e t.id)
    audit e s.audited (record {
      event_type = access_token_revoked;
      user_id = some t.user_id;
      client_id = t.client_id;
      actor_id = none;
      ip_address = none;
      metadata = ("reason", "client_revoked") ∷ [];
    })

  -- What is done with the linked access token: its own failure is ignored, a failed search is not.
  unfoldable pub revoke_linked : Result AccessToken → M (Unit {0})
  revoke_linked (ok t) = ignore (revoke_access_token_record t)
  revoke_linked (err r) =
      if is_no_rows r then pure tt else raise (wrap "looking up linked access token" r)

  unfoldable pub revoke_refresh_token_and_linked_access : RefreshToken → M (Unit {0})
  revoke_refresh_token_and_linked_access t = if t.is_revoked then pure tt else do
    map_error (wrap "revoking refresh token")
        (revoke_refresh_token e t.id (str_ptr "client_revoked"))
    audit e s.audited (
        token_entry refresh_token_revoked t.user_id t.client_id (("reason", "client_revoked") ∷ []))
    if t.access_token_id == nil_uuid
        then pure tt
        else do found ← attempt (get_access_token_by_id e t.access_token_id); revoke_linked found

  unfoldable pub revoke_access_found : Result AccessToken → M (Unit {0})
  revoke_access_found (ok t) = revoke_access_token_record t
  revoke_access_found (err r) =
      if is_no_rows r then pure tt else raise (wrap "looking up access token" r)

  -- the access token path
  unfoldable pub revoke_as_access : String → M (Unit {0})
  revoke_as_access hash = do found ← attempt (get_access_token e hash); revoke_access_found found

  unfoldable pub revoke_refresh_found : String → Result RefreshToken → M (Unit {0})
  revoke_refresh_found hash (ok t) = revoke_refresh_token_and_linked_access t
  revoke_refresh_found hash (err r) =
      if is_no_rows r then revoke_as_access hash else raise (wrap "looking up refresh token" r)

  unfoldable pub revoke_any_token : String → String → M (Unit {0})
  revoke_any_token raw_token hint =
      let hash = sha256_hex e raw_token in
      if str_eq hint "access_token"
      then revoke_as_access hash
      else do found ← attempt (get_refresh_token_by_hash e hash); revoke_refresh_found hash found

-- authorization.go
module _ (e : Environment) where
  unfoldable pub revoke_token : String → M (Unit {0})
  revoke_token hash = do
    t ← map_error (not_found_as token_not_found "getting access token") (get_access_token e hash)
    map_error (wrap "revoking access token") (revoke_access_token e t.id)

  unfoldable pub revoke_raw_token : String → M (Unit {0})
  revoke_raw_token raw_token = revoke_token (sha256_hex e raw_token)

  unfoldable pub revoke_all_user_access_tokens : Uuid → M (Unit {0})
  revoke_all_user_access_tokens user =
      map_error (wrap "revoking user access tokens") (revoke_access_tokens_by_user e user)

  unfoldable pub revoke_user_refresh_tokens : Uuid → String → M (Unit {0})
  revoke_user_refresh_tokens user reason = revoke_refresh_tokens_by_user e user (some reason)

  -- A token that is not in the table counts as not revoked.
  unfoldable pub token_revoked : Result AccessToken → M Bool
  token_revoked (ok t) = pure (is_true t.is_revoked)
  token_revoked (err r) =
      if is_no_rows r then pure false else raise (wrap "looking up access token" r)

  unfoldable pub is_token_revoked : String → M Bool
  is_token_revoked raw_token = do
    found ← attempt (get_access_token e (sha256_hex e raw_token))
    token_revoked found

  -- What the search for the client becomes: a client that is unknown or not active is no error.
  unfoldable pub credentials_match : String → Result Client → M Bool
  credentials_match client_secret (ok c) = pure (
      if is_true c.is_active
      then str_eq c.client_secret_hash (sha256_hex e client_secret)
      else false)
  credentials_match client_secret (err r) =
      if is_no_rows r then pure false else raise (wrap "getting client" r)

  abbrev pub with_client_uuid : String → Option Uuid → M Bool
  with_client_uuid client_secret none = pure false
  with_client_uuid client_secret (some id) = do
    found ← attempt (get_client e id)
    credentials_match client_secret found

  unfoldable pub validate_client_credentials : String → String → M Bool
  validate_client_credentials client_id client_secret =
      with_client_uuid client_secret (e.parse_uuid client_id)
