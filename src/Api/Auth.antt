-- ===== src/Api/Auth.antt =====
-- internal/transport/http/api/v1/handler/auth_handler.go
pub mod LoggedOut
use goauth_server.Prelude.{String, Bool, true, false, Option, none, some, str_eq, if◌then◌else◌}
use goauth_server.Model.{Uuid}
use goauth_server.Environment.{Environment}
use goauth_server.Exec.{
  Error, Result, ok, err, M, ◌>>=◌, ◌>>◌, pure, ignore, wrap, client_not_found, client_inactive,
  invalid_client_secret, code_not_found, code_expired, code_used, code_revoked,
  code_client_mismatch, code_redirect_mismatch, invalid_grant, token_expired,
}
use goauth_server.Http.{Context, Reply, success, failure, or_answer, errors_is}
use goauth_server.Auth.Service.{Service, TokenResponse}
use goauth_server.Auth.Authorization.{exchange_code_for_token}
use goauth_server.Auth.Rotation.{rotate_refresh_token}
use goauth_server.Auth.Revoke.{revoke_raw_token, revoke_user_refresh_tokens}
use goauth_server.UserService.{UserView, get_user}

pub record TokenExchangeRequest : Type 0 where
  pub code : String
  pub client_id : String
  pub client_secret : String
  pub redirect_uri : String

pub record RefreshTokenGrantRequest : Type 0 where
  pub refresh_token : String
  pub client_id : String
  pub client_secret : String

-- the three bindings of one body
pub record TokenBody : Type 0 where
  pub grant_type : Option String
  pub code_grant : Option TokenExchangeRequest
  pub refresh_grant : Option RefreshTokenGrantRequest

abbrev pub is_client_error : Error → Bool
is_client_error client_not_found = true
is_client_error client_inactive = true
is_client_error invalid_client_secret = true
is_client_error _ = false

abbrev pub is_code_error : Error → Bool
is_code_error code_not_found = true
is_code_error code_expired = true
is_code_error code_used = true
is_code_error code_revoked = true
is_code_error code_client_mismatch = true
is_code_error code_redirect_mismatch = true
is_code_error _ = false

abbrev pub is_refresh_error : Error → Bool
is_refresh_error invalid_grant = true
is_refresh_error token_expired = true
is_refresh_error _ = false

unfoldable pub handle_token_exchange_error : Error → Reply TokenResponse
handle_token_exchange_error r =
    if errors_is is_client_error r
    then failure 401 "invalid_client"
    else if errors_is is_code_error r
    then failure 400 "invalid_grant"
    else failure 500 "server_error"

unfoldable pub handle_refresh_token_error : Error → Reply TokenResponse
handle_refresh_token_error r =
    if errors_is is_client_error r
    then failure 401 "invalid_client"
    else if errors_is is_refresh_error r
    then failure 400 "invalid_grant"
    else failure 500 "server_error"

module _ (e : Environment) (s : Service) where
  abbrev pub with_client : TokenExchangeRequest → Option Uuid → M (Reply TokenResponse)
  with_client req none = pure (failure 400 "invalid_client")
  with_client req (some client_id) =
      or_answer (exchange_code_for_token e s req.code client_id req.client_secret req.redirect_uri)
        handle_token_exchange_error λ response. pure (success 200 response)

  unfoldable pub handle_authorization_code_grant :
      Option TokenExchangeRequest → M (Reply TokenResponse)
  handle_authorization_code_grant none = pure (failure 400 "invalid_request")
  handle_authorization_code_grant (some req) = with_client req (e.parse_uuid req.client_id)

  unfoldable pub handle_refresh_token_grant :
      Option RefreshTokenGrantRequest → M (Reply TokenResponse)
  handle_refresh_token_grant none = pure (failure 400 "invalid_request")
  handle_refresh_token_grant (some req) =
      or_answer (rotate_refresh_token e s req.refresh_token req.client_id req.client_secret)
        handle_refresh_token_error λ response. pure (success 200 response)

  unfoldable pub token_exchange : TokenBody → Option String → M (Reply TokenResponse)
  token_exchange body none = pure (failure 400 "invalid_request")
  token_exchange body (some grant_type) =
      if str_eq grant_type "authorization_code"
      then handle_authorization_code_grant body.code_grant
      else if str_eq grant_type "refresh_token"
      then handle_refresh_token_grant body.refresh_grant
      else pure (failure 400 "unsupported_grant_type")

module _ (e : Environment) where
  -- what the handler does with the token in the context, its errors logged and no more
  abbrev pub revoke_context_token : Option String → M (Unit {0})
  revoke_context_token none = pure tt
  revoke_context_token (some token) = ignore (revoke_raw_token e token)

  abbrev pub revoke_parsed : Option Uuid → M (Unit {0})
  revoke_parsed none = pure tt
  revoke_parsed (some id) = ignore (revoke_user_refresh_tokens e id "logout")

  -- c.GetString is "" where the key is not set
  abbrev pub revoke_context_user : Option String → M (Unit {0})
  revoke_context_user none = pure tt
  revoke_context_user (some id) = if str_eq id "" then pure tt else revoke_parsed (e.parse_uuid id)

  unfoldable pub logout : Context → M (Reply String)
  logout c = do
    revoke_context_token c.raw_token
    revoke_context_user c.user_id
    pure (success 200 "Logged out successfully")

  abbrev pub current_user : Option Uuid → M (Reply UserView)
  current_user none = pure (failure 401 "Unauthorized")
  current_user (some id) =
      or_answer (get_user e id) (λ r. failure 500 "Failed to get user")
        λ user. pure (success 200 user)

  abbrev pub current_user_of : Option String → M (Reply UserView)
  current_user_of none = pure (failure 401 "Unauthorized")
  current_user_of (some raw) = current_user (e.parse_uuid raw)

  unfoldable pub get_current_user : Context → M (Reply UserView)
  get_current_user c = current_user_of c.user_id
