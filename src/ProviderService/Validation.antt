-- ===== src/ProviderService/Validation.antt =====
-- internal/service/provider/validation.go
use goauth_server.Prelude.{
  String, Bool, not, ◌&&◌, Option, none, some, List, str_eq, str_append, if◌then◌else◌,
}
use goauth_server.Environment.{Environment, Url}
use goauth_server.Exec.{Error, validation_error}
use goauth_server.ClientService.Validation.{is_loopback, or_else, require_some}

pub record CreateProviderDto : Type 0 where
  pub name : String
  pub display_name : String
  pub provider_client_id : String
  pub provider_client_secret : String
  pub auth_url : String
  pub token_url : String
  pub user_info_url : String
  pub scopes : List String
  pub is_enabled : Bool

pub record UpdateProviderDto : Type 0 where
  pub display_name : String
  pub provider_client_id : String
  pub provider_client_secret : String
  pub auth_url : String
  pub token_url : String
  pub user_info_url : String
  pub scopes : List String
  pub is_enabled : Bool

module _ (e : Environment) (env : String) where
  abbrev pub validate_parsed_url : String → String → Option Url → Option Error
  validate_parsed_url field raw none = some (validation_error field "must be a valid URL")
  validate_parsed_url field raw (some u) =
      if str_eq u.host ""
      then some (validation_error field "must be a valid URL")
      else if not (str_eq u.scheme "http") && not (str_eq u.scheme "https")
      then some (validation_error field "must use http or https scheme")
      else if str_eq env "production" && str_eq u.scheme "http" && not (is_loopback u.hostname)
      then some (validation_error field (str_append "must use HTTPS in production: " (e.quote raw)))
      else none

  unfoldable pub validate_url : String → String → Option Error
  validate_url field raw =
      if str_eq (e.trim_space raw) ""
      then some (validation_error field "required")
      else validate_parsed_url field raw (e.parse_request_uri raw)

  abbrev pub required : String → String → Option Error
  required field text =
      if str_eq (e.trim_space text) "" then some (validation_error field "required") else none

  abbrev pub validate_urls : String → String → String → List String → Option Error
  validate_urls auth token user_info scopes = or_else (validate_url "auth_url" auth) (
      or_else (validate_url "token_url" token) (
        or_else (validate_url "user_info_url" user_info)
          (require_some scopes (validation_error "scopes" "at least one scope is required"))))

  unfoldable pub validate_create_provider_dto : CreateProviderDto → Option Error
  unfolding validate_url
  validate_create_provider_dto dto = or_else (required "name" dto.name) (
      or_else (required "display_name" dto.display_name) (
        or_else (required "provider_client_id" dto.provider_client_id) (
          or_else (required "provider_client_secret" dto.provider_client_secret)
            (validate_urls dto.auth_url dto.token_url dto.user_info_url dto.scopes))))

  unfoldable pub validate_update_provider_dto : UpdateProviderDto → Option Error
  unfolding validate_url
  validate_update_provider_dto dto = or_else (required "display_name" dto.display_name) (
      or_else (required "provider_client_id" dto.provider_client_id)
        (validate_urls dto.auth_url dto.token_url dto.user_info_url dto.scopes))
