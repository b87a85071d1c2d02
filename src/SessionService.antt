-- ===== src/SessionService.antt =====
-- internal/service/session/session.go
pub mod Listed
use goauth_server.Prelude.{ℕ, String, Bool, false, Option, none, some, List, is_true, map}
use goauth_server.Model.{Uuid, Time, AuthorizationCode, AccessToken, nil_uuid}
use goauth_server.Environment.{Environment}
use goauth_server.Exec.{
  M, ◌>>=◌, ◌>>◌, pure, map_error, wrap, not_found_as, no_such_code, no_such_token,
}
use goauth_server.Repository.Pages.{default_limit}
use goauth_server.Repository.Codes.{
  list_authorization_codes, count_authorization_codes, get_authorization_code_by_id,
  revoke_authorization_code, delete_expired_authorization_codes,
}
use goauth_server.Repository.AccessTokens.{
  list_access_tokens, count_access_tokens, get_access_token_by_id, revoke_access_token,
  revoke_access_tokens_by_user, revoke_access_tokens_by_client, delete_expired_access_tokens,
}
use goauth_server.UserService.{or_default}

-- session.AuthorizationCode and session.AccessToken
pub record CodeView : Type 0 where
  pub id : Uuid
  pub code : String
  pub client_id : Uuid
  pub user_id : Uuid
  pub provider_id : Uuid
  pub redirect_uri : String
  pub scope : Option String
  pub expires_at : Time
  pub used_at : Option Time
  pub is_revoked : Bool
  pub created_at : Time

pub record TokenView : Type 0 where
  pub id : Uuid
  pub client_id : Option Uuid
  pub user_id : Uuid
  pub scope : Option String
  pub expires_at : Time
  pub is_revoked : Bool
  pub created_at : Time

unfoldable pub to_authorization_code : AuthorizationCode → CodeView
to_authorization_code r = record {
  id = r.id;
  code = r.code;
  client_id = r.client_id;
  user_id = r.user_id;
  provider_id = r.provider_id;
  redirect_uri = r.redirect_uri;
  scope = r.scope;
  expires_at = r.expires_at;
  used_at = r.used_at;
  is_revoked = is_true r.is_revoked;
  created_at = r.created_at;
}

unfoldable pub to_access_token : AccessToken → TokenView
to_access_token r = record {
  id = r.id;
  client_id = r.client_id;
  user_id = r.user_id;
  scope = r.scope;
  expires_at = r.expires_at;
  is_revoked = is_true r.is_revoked;
  created_at = r.created_at;
}

-- ListAuthorizationCodesParams and ListAccessTokensParams
pub record ListParams : Type 0 where
  pub client_id : Option Uuid
  pub user_id : Option Uuid
  pub is_revoked : Option Bool
  pub limit : ℕ
  pub offset : ℕ

pub record CodeList : Type 0 where
  pub codes : List CodeView
  pub total : ℕ

pub record TokenList : Type 0 where
  pub tokens : List TokenView
  pub total : ℕ

-- A filter that is nil leaves the zero value of the parameter of the query.
module _ (e : Environment) where
  unfoldable pub list_code_page : ListParams → M CodeList
  list_code_page p = do
    rows ← map_error (wrap "listing authorization codes") (
        list_authorization_codes e (or_default nil_uuid p.client_id) (or_default nil_uuid p.user_id)
          (or_default false p.is_revoked) (default_limit p.limit) p.offset)
    total ← map_error (wrap "counting authorization codes") (
        count_authorization_codes e (or_default nil_uuid p.client_id)
          (or_default nil_uuid p.user_id) (or_default false p.is_revoked))
    pure (record { codes = map to_authorization_code rows; total = total })

  unfoldable pub revoke_code : Uuid → M (Unit {0})
  revoke_code id = do
    map_error (not_found_as no_such_code "getting authorization code")
        (get_authorization_code_by_id e id)
    map_error (wrap "revoking authorization code") (revoke_authorization_code e id)

  unfoldable pub list_token_page : ListParams → M TokenList
  list_token_page p = do
    rows ← map_error (wrap "listing access tokens") (
        list_access_tokens e (or_default nil_uuid p.client_id) (or_default nil_uuid p.user_id)
          (or_default false p.is_revoked) (default_limit p.limit) p.offset)
    total ← map_error (wrap "counting access tokens") (
        count_access_tokens e (or_default nil_uuid p.client_id) (or_default nil_uuid p.user_id)
          (or_default false p.is_revoked))
    pure (record { tokens = map to_access_token rows; total = total })

  unfoldable pub revoke_token_by_id : Uuid → M (Unit {0})
  revoke_token_by_id id = do
    map_error (not_found_as no_such_token "getting access token") (get_access_token_by_id e id)
    map_error (wrap "revoking access token") (revoke_access_token e id)

  unfoldable pub revoke_user_sessions : Uuid → M (Unit {0})
  revoke_user_sessions user =
      map_error (wrap "revoking user sessions") (revoke_access_tokens_by_user e user)

  unfoldable pub revoke_client_sessions : Uuid → M (Unit {0})
  revoke_client_sessions client =
      map_error (wrap "revoking client sessions") (revoke_access_tokens_by_client e client)

  unfoldable pub cleanup_expired_codes : M (Unit {0})
  cleanup_expired_codes =
      map_error (wrap "cleaning up expired authorization codes")
        (delete_expired_authorization_codes e)

  unfoldable pub cleanup_expired_tokens : M (Unit {0})
  cleanup_expired_tokens =
      map_error (wrap "cleaning up expired access tokens") (delete_expired_access_tokens e)
