-- ===== src/Api/Clients.antt =====
-- internal/transport/http/api/v1/handler/client_handler.go
use goauth_server.Prelude.{ℕ, String, Bool, true, false, Option, none, some, str_eq, if◌then◌else◌}
use goauth_server.Model.{Uuid}
use goauth_server.Environment.{Environment}
use goauth_server.Exec.{Error, M, pure, no_such_client, duplicate_client_name, validation_error}
use goauth_server.Http.{Request, Context, Reply, success, failure, or_answer, errors_is}
use goauth_server.ClientService.{
  ClientView, ClientWithSecret, ListClientsResult, list_client_page, get_client_view,
  create_client_app, update_client_app, regenerate_secret, delete_client_app,
}
use goauth_server.ClientService.Validation.{CreateClientDto, UpdateClientDto}
use goauth_server.Api.Pagination.{parse_pagination_params, with_page}

abbrev is_no_such_client : Error → Bool
is_no_such_client no_such_client = true
is_no_such_client _ = false

abbrev is_duplicate_name : Error → Bool
is_duplicate_name duplicate_client_name = true
is_duplicate_name _ = false

abbrev pub is_validation_error : Error → Bool
is_validation_error (validation_error field message) = true
is_validation_error _ = false

-- The text of a validation error names the field; here its status is looked at.
unfoldable pub handle_client_error : {A : Type 0} → Error → Reply A
handle_client_error r =
    if errors_is is_validation_error r
    then failure 422 "validation error"
    else if errors_is is_no_such_client r
    then failure 404 "client not found"
    else if errors_is is_duplicate_name r
    then failure 409 "a client with this name already exists"
    else failure 500 "internal server error"

-- an optional Boolean query parameter: `none` where it is malformed
abbrev pub optional_bool : Environment → Option String → Option (Option Bool)
optional_bool e none = some none
optional_bool e (some v) = if str_eq v "" then some none else parsed (e.parse_bool v)
  where
    parsed : Option Bool → Option (Option Bool)
    parsed none = none
    parsed (some b) = some (some b)

module _ (e : Environment) where
  abbrev pub with_client_id : {A : Type 0} → Option Uuid → (Uuid → M (Reply A)) → M (Reply A)
  with_client_id none f = pure (failure 400 "invalid client id")
  with_client_id (some id) f = f id

  abbrev pub list_clients_if : ℕ → ℕ → Option (Option Bool) → M (Reply ListClientsResult)
  list_clients_if limit offset none = pure (failure 400 "is_active must be true or false")
  list_clients_if limit offset (some is_active) =
      or_answer (list_client_page e is_active limit offset)
        (λ r. failure 500 "internal server error") λ result. pure (success 200 result)

  unfoldable pub list_clients_handler : Request → M (Reply ListClientsResult)
  list_clients_handler r =
      with_page (parse_pagination_params e r)
        λ limit offset. list_clients_if limit offset (optional_bool e (r.query "is_active"))

  unfoldable pub get_client_handler : Request → M (Reply ClientView)
  get_client_handler r =
      with_client_id (e.parse_uuid (r.param "client_id"))
        λ id. or_answer (get_client_view e id) handle_client_error λ c. pure (success 200 c)

  abbrev pub create_bound : String → Uuid → Option CreateClientDto → M (Reply ClientWithSecret)
  create_bound env admin none = pure (failure 400 "invalid body")
  create_bound env admin (some dto) =
      or_answer (create_client_app e env dto admin) handle_client_error λ c. pure (success 201 c)

  abbrev pub create_as : String → Option Uuid → Option CreateClientDto → M (Reply ClientWithSecret)
  create_as env none body = pure (failure 500 "internal server error")
  create_as env (some admin) body = create_bound env admin body

  abbrev pub create_by :
      String → Option String → Option CreateClientDto → M (Reply ClientWithSecret)
  create_by env none body = pure (failure 401 "unauthorized")
  create_by env (some raw) body = create_as env (e.parse_uuid raw) body

  unfoldable pub create_client_handler :
      String → Context → Option CreateClientDto → M (Reply ClientWithSecret)
  create_client_handler env c body = create_by env c.user_id body

  abbrev pub update_bound : String → Uuid → Option UpdateClientDto → M (Reply ClientView)
  update_bound env id none = pure (failure 400 "invalid body")
  update_bound env id (some dto) =
      or_answer (update_client_app e env id dto) handle_client_error λ c. pure (success 200 c)

  unfoldable pub update_client_handler :
      String → Request → Option UpdateClientDto → M (Reply ClientView)
  update_client_handler env r body =
      with_client_id (e.parse_uuid (r.param "client_id")) λ id. update_bound env id body

  unfoldable pub regenerate_client_secret_handler : Bool → Request → M (Reply ClientWithSecret)
  regenerate_client_secret_handler audited r =
      with_client_id (e.parse_uuid (r.param "client_id")) λ id.
        or_answer (regenerate_secret e audited id) handle_client_error λ c. pure (success 200 c)

  unfoldable pub delete_client_handler : Request → M (Reply (Unit {0}))
  delete_client_handler r =
      with_client_id (e.parse_uuid (r.param "client_id"))
        λ id. or_answer (delete_client_app e id) handle_client_error λ x. pure (success 204 tt)
