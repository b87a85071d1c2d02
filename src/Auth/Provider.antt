-- ===== src/Auth/Provider.antt =====
-- internal/service/auth/provider_client.go, and the redirect to a provider and its callback in
-- internal/service/auth/authorization.go. The provider is a server that answers through the
-- environment; what it sends is a map from keys to JSON values.
pub mod Upserted
pub mod Issued
use goauth_server.Prelude.{
  ℕ, ◌*◌, String, Bool, true, false, not, ◌||◌, Option, none, some, List, [], ◌∷◌, str_eq, str_ptr,
  is_true, if◌then◌else◌,
}
use goauth_server.Model.{Uuid, User, Client}
use goauth_server.Environment.{Environment, OauthConfig, Json, text, flag, other}
use goauth_server.Exec.{
  Error, Result, ok, err, M, failure, wrap, client_not_found, client_inactive, provider_disabled,
  provider_not_found, invalid_redirect_uri, is_no_rows, ◌>>=◌, ◌>>◌, pure, raise, attempt, guard,
  lift_option, map_error, not_found_as, ask,
}
use goauth_server.Http.{errors_is}
use goauth_server.Repository.Clients.{get_client}
use goauth_server.Repository.Codes.{create_authorization_code}
use goauth_server.Repository.Users.{create_user, get_user_by_provider_id, update_last_login}
use goauth_server.Auth.Service.{time_now, add_time, minute, generate_secure_token}
use goauth_server.ProviderService.{
  Providers, ProviderWithSecret, get_provider_with_secret_by_client_and_name,
}

pub record ProviderUserInfo : Type 0 where
  pub sub : String
  pub email : String
  pub email_verified : Bool
  pub given_name : String
  pub family_name : String
  pub locale : String

abbrev text_of : Option Json → String
text_of (some (text s)) = s
text_of _ = ""

abbrev flag_of : Option Json → Bool
flag_of (some (flag b)) = b
flag_of _ = false

unfoldable pub str_field : (String → Option Json) → String → String
str_field m key = text_of (m key)

unfoldable pub bool_field : (String → Option Json) → String → Bool
bool_field m key = flag_of (m key)

-- the first of two keys whose text is not empty
abbrev pub either_field : (String → Option Json) → String → String → String
either_field m key other_key =
    if str_eq (str_field m key) "" then str_field m other_key else str_field m key

unfoldable pub normalize : (String → Option Json) → ProviderUserInfo
normalize m = record {
  sub = str_field m "sub";
  email = str_field m "email";
  email_verified = bool_field m "email_verified";
  given_name = either_field m "given_name" "first_name";
  family_name = either_field m "family_name" "last_name";
  locale = str_field m "locale";
}

unfoldable pub build_oauth_config : ProviderWithSecret → String → OauthConfig
build_oauth_config p callback_url = record {
  client_id = p.provider_client_id;
  client_secret = p.provider_client_secret;
  redirect_url = callback_url;
  scopes = p.provider.scopes;
  auth_url = p.provider.auth_url;
  token_url = p.provider.token_url;
}

-- slices.Contains
unfoldable pub registered : List String → String → Bool
registered [] uri = false
registered (u ∷ us) uri = str_eq u uri || registered us uri

abbrev is_provider_not_found : Error → Bool
is_provider_not_found provider_not_found = true
is_provider_not_found _ = false

-- what the errors of the search for the provider become in the redirect
abbrev pub provider_error : Error → Error
provider_error r =
    if errors_is is_provider_not_found r then provider_not_found else wrap "getting provider" r

module _ (e : Environment) where
  unfoldable pub exchange_provider_code : ProviderWithSecret → String → String → M String
  exchange_provider_code p code callback_url = do
    token ← ask e λ k. e.exchange_code k (build_oauth_config p callback_url) code
    lift_option (failure "exchanging code with provider") token

  unfoldable pub fetch_user_info : String → String → M ProviderUserInfo
  fetch_user_info access_token user_info_url = do
    answer ← ask e λ k. e.get_user_info k access_token user_info_url
    raw ← lift_option (failure "fetching user info") answer
    guard (not (str_eq (normalize raw).sub "")) (failure "missing required 'sub' field")
    guard (not (str_eq (normalize raw).email "")) (failure "missing required 'email' field")
    pure (normalize raw)

  unfoldable pub create_provider_user : String → ProviderUserInfo → M User
  create_provider_user provider_name info = do
    now ← time_now e
    map_error (wrap "creating user") (
        create_user e (record {
          email = info.email;
          email_verified = info.email_verified;
          first_name = str_ptr info.given_name;
          last_name = str_ptr info.family_name;
          provider = str_ptr provider_name;
          provider_id = str_ptr info.sub;
          locale = if str_eq info.locale "" then "en-US" else info.locale;
          last_login_at = now;
        }))

  unfoldable pub upsert_found : String → ProviderUserInfo → Result User → M User
  upsert_found provider_name info (ok user) = do
    now ← time_now e
    map_error (wrap "updating last login") (update_last_login e user.id now)
  upsert_found provider_name info (err r) =
      if is_no_rows r
      then create_provider_user provider_name info
      else raise (wrap "looking up user" r)

  unfoldable pub upsert_user : String → ProviderUserInfo → M User
  upsert_user provider_name info = do
    found ← attempt (get_user_by_provider_id e (str_ptr provider_name) (str_ptr info.sub))
    upsert_found provider_name info found

  -- the client exists and is active
  unfoldable pub find_active_client : Uuid → M Client
  find_active_client client_id = do
    client ← map_error (not_found_as client_not_found "getting client") (get_client e client_id)
    guard (is_true client.is_active) client_inactive
    pure client

  unfoldable pub initiate_authorization :
      Providers → Uuid → String → String → String → String → M String
  initiate_authorization s client_id provider_name callback_url client_redirect_uri state = do
    client ← find_active_client client_id
    guard (registered client.redirect_uris client_redirect_uri) invalid_redirect_uri
    p ←
        map_error provider_error
          (get_provider_with_secret_by_client_and_name e s client_id provider_name)
    guard p.provider.is_enabled provider_disabled
    pure (e.auth_code_url (build_oauth_config p callback_url) state)

  -- steps 6 and 7
  unfoldable pub issue_code : Uuid → User → ProviderWithSecret → String → Option String → M String
  issue_code client_id user p client_redirect_uri scope = do
    code ← map_error (wrap "generating authorization code") (generate_secure_token e 32)
    now ← time_now e
    map_error (wrap "storing authorization code") (
        create_authorization_code e (record {
          code = code;
          client_id = client_id;
          user_id = user.id;
          provider_id = p.provider.id;
          redirect_uri = client_redirect_uri;
          scope = scope;
          state = none;
          code_challenge = none;
          code_challenge_method = none;
          expires_at = add_time now (5 * minute);
        }))
    pure code

  unfoldable pub handle_provider_callback :
      Providers → Uuid → String → String → String → String → Option String → M String
  handle_provider_callback s client_id provider_name code callback_url client_redirect_uri scope =
      do
        find_active_client client_id
        p ←
            map_error (wrap "getting provider")
              (get_provider_with_secret_by_client_and_name e s client_id provider_name)
        guard p.provider.is_enabled provider_disabled
        token ←
            map_error (wrap "exchanging provider code") (exchange_provider_code p code callback_url)
        info ←
            map_error (wrap "fetching user info from provider")
              (fetch_user_info token p.provider.user_info_url)
        user ← upsert_user p.provider.name info
        issue_code client_id user p client_redirect_uri scope
