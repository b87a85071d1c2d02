-- ===== src/Repository/Providers.antt =====
-- internal/repository/oauth_providers.sql.go
use goauth_server.Prelude.{
  ◌&&◌, ◌||◌, not, String, Bool, false, Option, some, List, [], ◌∷◌, ◌==◌, str_eq, is_true,
  select_first, select_all, update_where, exists, if◌then◌else◌,
}
use goauth_server.Model.{Uuid, Time, OauthProvider, Db}
use goauth_server.Environment.{Environment}
use goauth_server.Exec.{ok, err, unique_violation, M, statement, one_row}

pub record CreateOauthProviderParams : Type 0 where
  pub client_id : Uuid
  pub name : String
  pub display_name : String
  pub provider_client_id : String
  pub provider_client_secret : String
  pub auth_url : String
  pub token_url : String
  pub user_info_url : String
  pub scopes : List String
  pub is_enabled : Option Bool

unfoldable pub new_provider : Time → Uuid → CreateOauthProviderParams → OauthProvider
new_provider now id arg = record {
  id = id;
  client_id = arg.client_id;
  name = arg.name;
  display_name = arg.display_name;
  provider_client_id = arg.provider_client_id;
  provider_client_secret = arg.provider_client_secret;
  auth_url = arg.auth_url;
  token_url = arg.token_url;
  user_info_url = arg.user_info_url;
  scopes = arg.scopes;
  is_enabled = arg.is_enabled;
  created_at = now;
  updated_at = now;
}

pub record UpdateOauthProviderParams : Type 0 where
  pub id : Uuid
  pub display_name : String
  pub provider_client_id : String
  pub provider_client_secret : String
  pub auth_url : String
  pub token_url : String
  pub user_info_url : String
  pub scopes : List String
  pub is_enabled : Option Bool

unfoldable pub set_provider : Time → UpdateOauthProviderParams → OauthProvider → OauthProvider
set_provider now arg r = record r {
  display_name = arg.display_name;
  provider_client_id = arg.provider_client_id;
  provider_client_secret = arg.provider_client_secret;
  auth_url = arg.auth_url;
  token_url = arg.token_url;
  user_info_url = arg.user_info_url;
  scopes = arg.scopes;
  is_enabled = arg.is_enabled;
  updated_at = now;
}

unfoldable pub set_disabled : Time → OauthProvider → OauthProvider
set_disabled now r = record r { is_enabled = some false; updated_at = now }

abbrev pub set_providers : Db → List OauthProvider → Db
set_providers d rows = record d { providers = rows }

module _ (e : Environment) where
  -- ORDER BY display_name, in the order of the database
  unfoldable pub insert_by_name : OauthProvider → List OauthProvider → List OauthProvider
  insert_by_name p [] = p ∷ []
  insert_by_name p (r ∷ rows) =
      let rest = insert_by_name p rows in
      if e.collates p.display_name r.display_name then p ∷ r ∷ rows else r ∷ rest

  unfoldable pub by_name : List OauthProvider → List OauthProvider
  by_name [] = []
  by_name (r ∷ rows) = insert_by_name r (by_name rows)

  unfoldable pub create_oauth_provider : CreateOauthProviderParams → M OauthProvider
  create_oauth_provider arg = statement e λ now id d.
      if exists (λ r. (r.client_id == arg.client_id && str_eq r.name arg.name) || r.id == id)
        d.providers
      then (err unique_violation, d)
      else (ok (new_provider now id arg), set_providers d (new_provider now id arg ∷ d.providers))

  unfoldable pub get_oauth_provider : Uuid → M OauthProvider
  get_oauth_provider provider =
      statement e λ now id d. (one_row (select_first (λ r. r.id == provider) d.providers), d)

  unfoldable pub get_oauth_provider_by_client_and_name : Uuid → String → M OauthProvider
  get_oauth_provider_by_client_and_name client name = statement e λ now id d.
      (one_row (select_first (λ r. r.client_id == client && str_eq r.name name) d.providers), d)

  unfoldable pub list_oauth_providers_by_client : Uuid → M (List OauthProvider)
  list_oauth_providers_by_client client =
      statement e
        λ now id d. (ok (by_name (select_all (λ r. r.client_id == client) d.providers)), d)

  unfoldable pub list_enabled_oauth_providers_by_client : Uuid → M (List OauthProvider)
  list_enabled_oauth_providers_by_client client = statement e λ now id d. (
    ok (by_name (select_all (λ r. r.client_id == client && is_true r.is_enabled) d.providers)),
    d,
  )

  unfoldable pub update_oauth_provider : UpdateOauthProviderParams → M OauthProvider
  update_oauth_provider arg = statement e λ now id d.
      let rows = update_where (λ r. r.id == arg.id) (set_provider now arg) d.providers in
      (one_row (select_first (λ r. r.id == arg.id) rows), set_providers d rows)

  unfoldable pub disable_oauth_provider : Uuid → M (Unit {0})
  disable_oauth_provider provider = statement e λ now id d.
      (ok tt, set_providers d (update_where (λ r. r.id == provider) (set_disabled now) d.providers))

  unfoldable pub delete_oauth_provider : Uuid → M (Unit {0})
  delete_oauth_provider provider =
      statement e
        λ now id d. (ok tt, set_providers d (select_all (λ r. not (r.id == provider)) d.providers))
