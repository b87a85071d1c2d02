-- ===== src/Api/Sessions.antt =====
-- internal/transport/http/api/v1/handler/session_handler.go
use goauth_server.Prelude.{ℕ, String, Bool, true, false, Option, none, some, str_eq, if◌then◌else◌}
use goauth_server.Model.{Uuid}
use goauth_server.Environment.{Environment}
use goauth_server.Exec.{Error, M, pure, no_such_code, no_such_token}
use goauth_server.Http.{Request, Reply, success, failure, or_answer, errors_is}
use goauth_server.SessionService.{
  ListParams, CodeList, TokenList, list_code_page, revoke_code, list_token_page, revoke_token_by_id,
}
use goauth_server.Api.Pagination.{parse_pagination_params, with_page}
use goauth_server.Api.Clients.{optional_bool}

abbrev is_no_such_code : Error → Bool
is_no_such_code no_such_code = true
is_no_such_code _ = false

abbrev is_no_such_token : Error → Bool
is_no_such_token no_such_token = true
is_no_such_token _ = false

unfoldable pub handle_session_error : {A : Type 0} → Error → Reply A
handle_session_error r =
    if errors_is is_no_such_code r
    then failure 404 "authorization code not found"
    else if errors_is is_no_such_token r
    then failure 404 "access token not found"
    else failure 500 "internal server error"

-- parseOptionalUUID: `none` where the parameter is malformed
abbrev pub optional_uuid : Environment → Option String → Option (Option Uuid)
optional_uuid e none = some none
optional_uuid e (some v) = if str_eq v "" then some none else parsed (e.parse_uuid v)
  where
    parsed : Option Uuid → Option (Option Uuid)
    parsed none = none
    parsed (some id) = some (some id)

-- the filters of a listing, in the order in which they are parsed
abbrev pub with_filters :
    {A : Type 0}
    → ℕ
    → ℕ
    → Option (Option Uuid)
    → Option (Option Uuid)
    → Option (Option Bool)
    → (ListParams → M (Reply A))
    → M (Reply A)
with_filters limit offset none user revoked f = pure (failure 400 "client_id must be a valid UUID")
with_filters limit offset (some client) none revoked f =
    pure (failure 400 "user_id must be a valid UUID")
with_filters limit offset (some client) (some user) none f =
    pure (failure 400 "is_revoked must be true or false")
with_filters limit offset (some client) (some user) (some revoked) f = f (record {
  client_id = client;
  user_id = user;
  is_revoked = revoked;
  limit = limit;
  offset = offset;
})

module _ (e : Environment) where
  unfoldable pub list_codes_handler : Request → M (Reply CodeList)
  list_codes_handler r = with_page (parse_pagination_params e r) λ limit offset.
      with_filters limit offset (optional_uuid e (r.query "client_id"))
        (optional_uuid e (r.query "user_id")) (optional_bool e (r.query "is_revoked"))
        λ p.
          or_answer (list_code_page e p) (λ x. failure 500 "internal server error")
            λ result. pure (success 200 result)

  unfoldable pub list_tokens_handler : Request → M (Reply TokenList)
  list_tokens_handler r = with_page (parse_pagination_params e r) λ limit offset.
      with_filters limit offset (optional_uuid e (r.query "client_id"))
        (optional_uuid e (r.query "user_id")) (optional_bool e (r.query "is_revoked"))
        λ p.
          or_answer (list_token_page e p) (λ x. failure 500 "internal server error")
            λ result. pure (success 200 result)

  abbrev pub revoke_code_of : Option Uuid → M (Reply (Unit {0}))
  revoke_code_of none = pure (failure 400 "invalid authorization code ID")
  revoke_code_of (some id) =
      or_answer (revoke_code e id) handle_session_error λ x. pure (success 204 tt)

  unfoldable pub revoke_code_handler : Request → M (Reply (Unit {0}))
  revoke_code_handler r = revoke_code_of (e.parse_uuid (r.param "id"))

  abbrev pub revoke_token_of : Option Uuid → M (Reply (Unit {0}))
  revoke_token_of none = pure (failure 400 "invalid access token ID")
  revoke_token_of (some id) =
      or_answer (revoke_token_by_id e id) handle_session_error λ x. pure (success 204 tt)

  unfoldable pub revoke_token_handler : Request → M (Reply (Unit {0}))
  revoke_token_handler r = revoke_token_of (e.parse_uuid (r.param "id"))
