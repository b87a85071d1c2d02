-- ===== src/Api/Providers.antt =====
-- internal/transport/http/api/v1/handler/provider_handler.go, and the public list of a client's
-- providers in auth_handler.go
use goauth_server.Prelude.{
  String, Bool, true, false, Option, none, some, List, ◌==◌, map, if◌then◌else◌,
}
use goauth_server.Model.{Uuid}
use goauth_server.Environment.{Environment}
use goauth_server.Exec.{
  Error, M, pure, provider_not_found, provider_client_mismatch, duplicate_provider_name,
}
use goauth_server.Http.{Request, Reply, success, failure, or_answer, errors_is}
use goauth_server.ProviderService.{
  Providers, ProviderView, list_providers_by_client, list_enabled_providers_by_client, get_provider,
  create_provider, update_provider, delete_provider,
}
use goauth_server.ProviderService.Validation.{CreateProviderDto, UpdateProviderDto}
use goauth_server.Api.Clients.{is_validation_error}

-- A provider of another client counts as not found.
abbrev is_hidden : Error → Bool
is_hidden provider_not_found = true
is_hidden provider_client_mismatch = true
is_hidden _ = false

abbrev is_duplicate_provider : Error → Bool
is_duplicate_provider duplicate_provider_name = true
is_duplicate_provider _ = false

unfoldable pub handle_provider_error : {A : Type 0} → Error → Reply A
handle_provider_error r =
    if errors_is is_validation_error r
    then failure 422 "validation error"
    else if errors_is is_hidden r
    then failure 404 "provider not found"
    else if errors_is is_duplicate_provider r
    then failure 409 "a provider with this name already exists for this client"
    else failure 500 "internal server error"

-- PublicProviderResponse: the name and the display name
abbrev pub public_view : ProviderView → String × String
public_view p = (p.name, p.display_name)

-- parseClientID and parseProviderID
abbrev pub with_uuid_param :
    {A : Type 0} → String → Option Uuid → (Uuid → M (Reply A)) → M (Reply A)
with_uuid_param message none f = pure (failure 400 message)
with_uuid_param message (some id) f = f id

module _ (e : Environment) where
  unfoldable pub list_enabled_providers : Request → M (Reply (List (String × String)))
  list_enabled_providers r =
      with_uuid_param "invalid client_id" (e.parse_uuid (r.param "client_id")) λ client.
        or_answer (list_enabled_providers_by_client e client)
          (λ x. failure 500 "internal server error")
          λ providers. pure (success 200 (map public_view providers))

  unfoldable pub list_providers_handler : Request → M (Reply (List ProviderView))
  list_providers_handler r =
      with_uuid_param "invalid client_id" (e.parse_uuid (r.param "client_id")) λ client.
        or_answer (list_providers_by_client e client) (λ x. failure 500 "internal server error")
          λ providers. pure (success 200 providers)

  unfoldable pub get_provider_handler : Request → M (Reply ProviderView)
  get_provider_handler r =
      with_uuid_param "invalid client_id" (e.parse_uuid (r.param "client_id")) λ client.
        with_uuid_param "invalid provider id" (e.parse_uuid (r.param "id")) λ id.
          or_answer (get_provider e id) handle_provider_error λ p.
            pure (if p.client_id == client then success 200 p else failure 404 "provider not found")

  unfoldable pub delete_provider_handler : Request → M (Reply (Unit {0}))
  delete_provider_handler r =
      with_uuid_param "invalid client_id" (e.parse_uuid (r.param "client_id")) λ client.
        with_uuid_param "invalid provider id" (e.parse_uuid (r.param "id")) λ id.
          or_answer (delete_provider e id client) handle_provider_error λ x. pure (success 204 tt)

  module _ (s : Providers) where
    abbrev pub create_provider_bound : Uuid → Option CreateProviderDto → M (Reply ProviderView)
    create_provider_bound client none = pure (failure 400 "invalid body")
    create_provider_bound client (some dto) =
        or_answer (create_provider e s client dto) handle_provider_error λ p. pure (success 201 p)

    unfoldable pub create_provider_handler :
        Request → Option CreateProviderDto → M (Reply ProviderView)
    create_provider_handler r body =
        with_uuid_param "invalid client_id" (e.parse_uuid (r.param "client_id"))
          λ client. create_provider_bound client body

    abbrev pub update_provider_bound :
        Uuid → Uuid → Option UpdateProviderDto → M (Reply ProviderView)
    update_provider_bound id client none = pure (failure 400 "invalid body")
    update_provider_bound id client (some dto) =
        or_answer (update_provider e s id client dto) handle_provider_error
          λ p. pure (success 200 p)

    unfoldable pub update_provider_handler :
        Request → Option UpdateProviderDto → M (Reply ProviderView)
    update_provider_handler r body =
        with_uuid_param "invalid client_id" (e.parse_uuid (r.param "client_id")) λ client.
          with_uuid_param "invalid provider id" (e.parse_uuid (r.param "id"))
            λ id. update_provider_bound id client body
