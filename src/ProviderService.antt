-- ===== src/ProviderService.antt =====
-- internal/service/provider/provider.go
pub mod Validation
pub mod Encryption
pub mod Secret
pub mod Owned
use goauth_server.Prelude.{
  ℕ, String, Bool, true, false, Option, none, some, List, ◌==◌, is_true, map, str_eq, if◌then◌else◌,
}
use goauth_server.Model.{Uuid, Time, OauthProvider}
use goauth_server.Environment.{Environment}
use goauth_server.Exec.{
  Error, M, provider_not_found, provider_client_mismatch, duplicate_provider_name, wrap, ◌>>=◌,
  ◌>>◌, pure, guard, lift_result, map_error, not_found_as,
}
use goauth_server.Repository.Providers.{
  create_oauth_provider, get_oauth_provider, get_oauth_provider_by_client_and_name,
  list_oauth_providers_by_client, list_enabled_oauth_providers_by_client, update_oauth_provider,
  disable_oauth_provider, delete_oauth_provider,
}
use goauth_server.ClientService.{is_duplicate_key_error, check}
use goauth_server.ProviderService.Encryption.{encrypt, decrypt}
use goauth_server.ProviderService.Validation.{
  CreateProviderDto, UpdateProviderDto, validate_create_provider_dto, validate_update_provider_dto,
}

-- provider.Service
pub record Providers : Type 0 where
  pub encryption_key : List ℕ
  pub env : String

-- provider.OAuthProvider: the row without the credentials
pub record ProviderView : Type 0 where
  pub id : Uuid
  pub client_id : Uuid
  pub name : String
  pub display_name : String
  pub auth_url : String
  pub token_url : String
  pub user_info_url : String
  pub scopes : List String
  pub is_enabled : Bool
  pub created_at : Time
  pub updated_at : Time

pub record ProviderWithSecret : Type 0 where
  pub provider : ProviderView
  pub provider_client_id : String
  pub provider_client_secret : String

unfoldable pub to_oauth_provider : OauthProvider → ProviderView
to_oauth_provider r = record {
  id = r.id;
  client_id = r.client_id;
  name = r.name;
  display_name = r.display_name;
  auth_url = r.auth_url;
  token_url = r.token_url;
  user_info_url = r.user_info_url;
  scopes = r.scopes;
  is_enabled = is_true r.is_enabled;
  created_at = r.created_at;
  updated_at = r.updated_at;
}

module _ (e : Environment) where
  unfoldable pub list_providers_by_client : Uuid → M (List ProviderView)
  list_providers_by_client client = do
    rows ← map_error (wrap "listing providers") (list_oauth_providers_by_client e client)
    pure (map to_oauth_provider rows)

  unfoldable pub list_enabled_providers_by_client : Uuid → M (List ProviderView)
  list_enabled_providers_by_client client = do
    rows ←
        map_error (wrap "listing enabled providers")
          (list_enabled_oauth_providers_by_client e client)
    pure (map to_oauth_provider rows)

  unfoldable pub find_provider : Uuid → M OauthProvider
  find_provider id =
      map_error (not_found_as provider_not_found "getting provider") (get_oauth_provider e id)

  unfoldable pub get_provider : Uuid → M ProviderView
  get_provider id = do row ← find_provider id; pure (to_oauth_provider row)

  unfoldable pub find_provider_by_name : Uuid → String → M OauthProvider
  find_provider_by_name client name =
      map_error (not_found_as provider_not_found "getting provider by client and name")
        (get_oauth_provider_by_client_and_name e client name)

  unfoldable pub get_provider_by_client_and_name : Uuid → String → M ProviderView
  get_provider_by_client_and_name client name = do
    row ← find_provider_by_name client name
    pure (to_oauth_provider row)

  -- the client and the provider belong together
  unfoldable pub validate_ownership : Uuid → Uuid → M (Unit {0})
  validate_ownership id client = do
    existing ← find_provider id
    guard (existing.client_id == client) provider_client_mismatch

  unfoldable pub enable_provider : Uuid → Uuid → M (Unit {0})
  enable_provider id client = do
    existing ← find_provider id
    guard (existing.client_id == client) provider_client_mismatch
    update_oauth_provider e (record {
      id = id;
      display_name = existing.display_name;
      provider_client_id = existing.provider_client_id;
      provider_client_secret = existing.provider_client_secret;
      auth_url = existing.auth_url;
      token_url = existing.token_url;
      user_info_url = existing.user_info_url;
      scopes = existing.scopes;
      is_enabled = some true;
    })
    pure tt

  unfoldable pub disable_provider : Uuid → Uuid → M (Unit {0})
  disable_provider id client = do validate_ownership id client; disable_oauth_provider e id

  unfoldable pub delete_provider : Uuid → Uuid → M (Unit {0})
  delete_provider id client = do validate_ownership id client; delete_oauth_provider e id

  module _ (s : Providers) where
    unfoldable pub reveal : OauthProvider → M ProviderWithSecret
    reveal row = do
      secret ←
          map_error (wrap "decrypting provider secret")
            (lift_result (decrypt e s.encryption_key row.provider_client_secret))
      pure (record {
        provider = to_oauth_provider row;
        provider_client_id = row.provider_client_id;
        provider_client_secret = secret;
      })

    unfoldable pub get_provider_with_secret : Uuid → M ProviderWithSecret
    get_provider_with_secret id = do row ← find_provider id; reveal row

    unfoldable pub get_provider_with_secret_by_client_and_name :
        Uuid → String → M ProviderWithSecret
    get_provider_with_secret_by_client_and_name client name = do
      row ← find_provider_by_name client name
      reveal row

    unfoldable pub create_provider : Uuid → CreateProviderDto → M ProviderView
    create_provider client dto = do
      check e (validate_create_provider_dto e s.env dto)
      secret ←
          map_error (wrap "encrypting provider secret")
            (encrypt e s.encryption_key dto.provider_client_secret)
      row ←
          map_error
            (λ r.
              if is_duplicate_key_error r
              then duplicate_provider_name
              else wrap "creating provider" r)
            (create_oauth_provider e (record {
              client_id = client;
              name = dto.name;
              display_name = dto.display_name;
              provider_client_id = dto.provider_client_id;
              provider_client_secret = secret;
              auth_url = dto.auth_url;
              token_url = dto.token_url;
              user_info_url = dto.user_info_url;
              scopes = dto.scopes;
              is_enabled = some dto.is_enabled;
            }))
      pure (to_oauth_provider row)

    -- an empty secret keeps the stored one
    abbrev pub new_secret : String → String → M String
    new_secret stored secret =
        if str_eq secret ""
        then pure stored
        else map_error (wrap "encrypting updated provider secret")
            (encrypt e s.encryption_key secret)

    unfoldable pub update_provider : Uuid → Uuid → UpdateProviderDto → M ProviderView
    update_provider id client dto = do
      check e (validate_update_provider_dto e s.env dto)
      existing ← find_provider id
      guard (existing.client_id == client) provider_client_mismatch
      secret ← new_secret existing.provider_client_secret dto.provider_client_secret
      row ← map_error (wrap "updating provider") (
          update_oauth_provider e (record {
            id = id;
            display_name = dto.display_name;
            provider_client_id = dto.provider_client_id;
            provider_client_secret = secret;
            auth_url = dto.auth_url;
            token_url = dto.token_url;
            user_info_url = dto.user_info_url;
            scopes = dto.scopes;
            is_enabled = some dto.is_enabled;
          }))
      pure (to_oauth_provider row)
