-- ===== src/ClientService.antt =====
-- internal/service/client/client.go
pub mod Validation
pub mod Secret
pub mod Deleted
use goauth_server.Prelude.{
  ℕ, ◌^◌, ◌&&◌, String, Bool, true, false, Option, none, some, List, [], ◌∷◌, ltb, ◌==◌, is_true,
  map, str_eq, if◌then◌else◌,
}
use goauth_server.Model.{Uuid, Time, Client}
use goauth_server.Environment.{Environment}
use goauth_server.Exec.{
  Error, unique_violation, wrap, no_such_client, duplicate_client_name, is_no_rows, M, ◌>>=◌, ◌>>◌,
  pure, raise, map_error, not_found_as,
}
use goauth_server.Http.{errors_is}
use goauth_server.Repository.Clients.{
  create_client, update_client, get_client, delete_client, regenerate_client_secret, list_clients,
  count_clients,
}
use goauth_server.Repository.Pages.{default_limit}
use goauth_server.Repository.Audit.{client_secret_regenerated, audit}
use goauth_server.Auth.Service.{sha256_hex, generate_secure_token}
use goauth_server.ClientService.Validation.{
  CreateClientDto, UpdateClientDto, validate_create_dto, validate_update_dto,
}

-- client.Client: the row without the hash of the secret and the two flags
pub record ClientView : Type 0 where
  pub id : Uuid
  pub name : String
  pub description : Option String
  pub redirect_uris : List String
  pub grant_types : List String
  pub is_active : Bool
  pub created_by : Uuid
  pub created_at : Time
  pub updated_at : Time

pub record ClientWithSecret : Type 0 where
  pub client : ClientView
  pub plain_secret : String

pub record ListClientsResult : Type 0 where
  pub clients : List ClientView
  pub total : ℕ

unfoldable pub to_client : Client → ClientView
to_client r = record {
  id = r.id;
  name = r.name;
  description = r.description;
  redirect_uris = r.redirect_uris;
  grant_types = r.grant_types;
  is_active = is_true r.is_active;
  created_by = r.created_by;
  created_at = r.created_at;
  updated_at = r.updated_at;
}

abbrev is_unique_violation : Error → Bool
is_unique_violation unique_violation = true
is_unique_violation _ = false

-- errors.As(err, &pgErr) with the code 23505
abbrev pub is_duplicate_key_error : Error → Bool
is_duplicate_key_error r = errors_is is_unique_violation r

abbrev or_true : Option Bool → Bool
or_true none = true
or_true (some b) = b

module _ (e : Environment) where
  unfoldable pub list_client_page : Option Bool → ℕ → ℕ → M ListClientsResult
  list_client_page is_active limit offset = do
    rows ←
        map_error (wrap "listing clients")
          (list_clients e (or_true is_active) (default_limit limit) offset)
    total ← map_error (wrap "counting clients") (count_clients e (or_true is_active))
    pure (record { clients = map to_client rows; total = total })

  unfoldable pub get_client_view : Uuid → M ClientView
  get_client_view id = do
    row ← map_error (not_found_as no_such_client "getting client") (get_client e id)
    pure (to_client row)

  -- `if err := validate...; err != nil { return nil, err }`
  abbrev pub check : Option Error → M (Unit {0})
  check none = pure tt
  check (some r) = raise r

  unfoldable pub create_client_app : String → CreateClientDto → Uuid → M ClientWithSecret
  create_client_app env dto admin = do
    check (validate_create_dto e env dto)
    secret ← map_error (wrap "generating client secret") (generate_secure_token e 32)
    row ←
        map_error
          (λ r.
            if is_duplicate_key_error r then duplicate_client_name else wrap "creating client" r)
          (create_client e (record {
            name = dto.name;
            description = dto.description;
            client_secret_hash = sha256_hex e secret;
            redirect_uris = dto.redirect_uris;
            grant_types = dto.grant_types;
            is_active = some dto.is_active;
            created_by = admin;
            is_confidential = false;
            allow_refresh_tokens = false;
          }))
    pure (record { client = to_client row; plain_secret = secret })

  -- The two flags are left out of the literal, and so are false.
  unfoldable pub update_client_app : String → Uuid → UpdateClientDto → M ClientView
  update_client_app env id dto = do
    check (validate_update_dto e env dto)
    row ←
        map_error
          (λ r.
            if is_no_rows r
            then no_such_client
            else if is_duplicate_key_error r
            then duplicate_client_name
            else wrap "updating client" r)
          (update_client e (record {
            id = id;
            name = dto.name;
            description = dto.description;
            redirect_uris = dto.redirect_uris;
            grant_types = dto.grant_types;
            is_confidential = false;
            allow_refresh_tokens = false;
          }))
    pure (to_client row)

  unfoldable pub regenerate_secret : Bool → Uuid → M ClientWithSecret
  regenerate_secret audited id = do
    existing ← map_error (not_found_as no_such_client "getting client") (get_client e id)
    secret ← map_error (wrap "generating client secret") (generate_secure_token e 32)
    updated ←
        map_error (wrap "updating client secret")
          (regenerate_client_secret e existing.id (sha256_hex e secret))
    audit e audited (record {
      event_type = client_secret_regenerated;
      user_id = none;
      client_id = some updated.id;
      actor_id = none;
      ip_address = none;
      metadata = [];
    })
    pure (record { client = to_client updated; plain_secret = secret })

  unfoldable pub delete_client_app : Uuid → M (Unit {0})
  delete_client_app id = do
    map_error (not_found_as no_such_client "getting client") (get_client e id)
    map_error (wrap "deleting client") (delete_client e id)

  -- ConstantTimeCompare is equality
  unfoldable pub validate_client_secret : String → String → Bool
  validate_client_secret stored supplied = str_eq stored (sha256_hex e supplied)
