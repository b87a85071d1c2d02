-- ===== src/ClientService/Validation.antt =====
-- internal/service/client/validation.go
pub mod Accepted
use goauth_server.Prelude.{
  String, Bool, true, false, not, ◌&&◌, ◌||◌, Option, none, some, List, [], ◌∷◌, str_eq, str_append,
  if◌then◌else◌,
}
use goauth_server.Environment.{Environment, Url}
use goauth_server.Exec.{Error, validation_error}

pub record CreateClientDto : Type 0 where
  pub name : String
  pub description : Option String
  pub redirect_uris : List String
  pub grant_types : List String
  pub is_active : Bool

pub record UpdateClientDto : Type 0 where
  pub name : String
  pub description : Option String
  pub redirect_uris : List String
  pub grant_types : List String

-- allowedGrantTypes
abbrev pub allowed_grant_type : String → Bool
allowed_grant_type g = str_eq g "authorization_code" || str_eq g "refresh_token"

-- host == "localhost" || ...
abbrev pub is_loopback : String → Bool
is_loopback h = str_eq h "localhost" || str_eq h "127.0.0.1" || str_eq h "::1"

abbrev pub or_else : Option Error → Option Error → Option Error
or_else none later = later
or_else (some r) later = some r

-- a loop that returns the first error
unfoldable pub first_error : (String → Option Error) → List String → Option Error
first_error f [] = none
first_error f (s ∷ ss) = or_else (f s) (first_error f ss)

-- `if len(...) == 0 { return ... }`
abbrev pub require_some : List String → Error → Option Error
require_some [] r = some r
require_some (s ∷ ss) r = none

module _ (e : Environment) (env : String) where
  -- the tests of a URI that is parsed
  abbrev pub validate_parsed : String → String → Option Url → Option Error
  validate_parsed field raw none =
      some (validation_error field (str_append "invalid redirect URI: " (e.quote raw)))
  validate_parsed field raw (some u) =
      if str_eq u.host ""
      then some (validation_error field (str_append "invalid redirect URI: " (e.quote raw)))
      else if not (str_eq u.scheme "http") && not (str_eq u.scheme "https")
      then some (
          validation_error field
            (str_append "redirect URI must use http or https scheme: " (e.quote raw)))
      else if str_eq env "production" && str_eq u.scheme "http" && not (is_loopback u.hostname)
      then some (
          validation_error field
            (str_append "redirect URI must use HTTPS in production: " (e.quote raw)))
      else none

  unfoldable pub validate_redirect_uri : String → String → Option Error
  validate_redirect_uri field raw =
      if str_eq (e.trim_space raw) ""
      then some (validation_error field "redirect URI must not be empty")
      else validate_parsed field raw (e.parse_request_uri raw)

  abbrev pub validate_grant_type : String → Option Error
  validate_grant_type g =
      if allowed_grant_type g
      then none
      else some (validation_error "grant_types" (str_append "unsupported grant type: " (e.quote g)))

  -- what the two validators do with the fields that both have
  unfoldable pub validate_fields : String → List String → List String → Option Error
  unfolding validate_redirect_uri first_error
  validate_fields name uris grants =
      or_else
        (if str_eq (e.trim_space name) "" then some (validation_error "name" "required") else none)
        (or_else
          (require_some uris
            (validation_error "redirect_uris" "at least one redirect URI is required"))
          (or_else (first_error (validate_redirect_uri "redirect_uris") uris) (
            or_else
              (require_some grants
                (validation_error "grant_types" "at least one grant type is required"))
              (first_error validate_grant_type grants))))

  unfoldable pub validate_create_dto : CreateClientDto → Option Error
  unfolding validate_fields
  validate_create_dto dto = validate_fields dto.name dto.redirect_uris dto.grant_types

  unfoldable pub validate_update_dto : UpdateClientDto → Option Error
  unfolding validate_fields
  validate_update_dto dto = validate_fields dto.name dto.redirect_uris dto.grant_types
