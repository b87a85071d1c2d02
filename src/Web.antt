-- ===== src/Web.antt =====
-- internal/transport/http/web/handler: the redirect of a browser to a provider, and the callback. The
-- context of the flow travels in a signed cookie.
pub mod Session
pub mod Returned
use goauth_server.Prelude.{
  ℕ, String, Bool, true, false, not, ◌||◌, ◌&&◌, Option, none, some, List, str_eq, str_append,
  str_ptr, or_empty, if◌then◌else◌,
}
use goauth_server.Model.{Uuid}
use goauth_server.Environment.{Environment, OauthSession}
use goauth_server.Exec.{
  Error, Result, ok, err, M, ◌>>=◌, pure, wrap, client_not_found, client_inactive,
  provider_not_found, provider_disabled, invalid_redirect_uri,
}
use goauth_server.Http.{Request, Reply, success, failure, or_answer, errors_is}
use goauth_server.Auth.Service.{generate_secure_token}
use goauth_server.Auth.Provider.{initiate_authorization, handle_provider_callback}
use goauth_server.ProviderService.{Providers}
use goauth_server.Web.Session.{encode_session, decode_session}

-- the settings of the server that the handlers read, with the signing key
pub record WebConfig : Type 0 where
  pub scheme : String
  pub host_name : String
  pub port : String
  pub signing_key : List ℕ

-- What a redirect of the login sets and where it leads.
pub record LoginRedirect : Type 0 where
  pub cookie : String
  pub location : String

abbrev pub is_client_missing : Error → Bool
is_client_missing client_not_found = true
is_client_missing client_inactive = true
is_client_missing _ = false

abbrev is_redirect_error : Error → Bool
is_redirect_error invalid_redirect_uri = true
is_redirect_error _ = false

abbrev pub is_provider_missing : Error → Bool
is_provider_missing provider_not_found = true
is_provider_missing _ = false

abbrev pub is_provider_disabled : Error → Bool
is_provider_disabled provider_disabled = true
is_provider_disabled _ = false

unfoldable pub handle_redirect_error : {A : Type 0} → Error → Reply A
handle_redirect_error r =
    if errors_is is_client_missing r
    then failure 404 "client not found or inactive"
    else if errors_is is_redirect_error r
    then failure 400 "redirect_uri is not registered for this client"
    else if errors_is is_provider_missing r
    then failure 404 "provider not found for this client"
    else if errors_is is_provider_disabled r
    then failure 400 "provider is disabled"
    else failure 500 "internal server error"

unfoldable pub handle_callback_error : {A : Type 0} → Error → Reply A
handle_callback_error r =
    if errors_is is_client_missing r
    then failure 401 "client not found or inactive"
    else if errors_is is_provider_missing r
    then failure 404 "provider not found for this client"
    else if errors_is is_provider_disabled r
    then failure 400 "provider is disabled"
    else failure 500 "authentication failed"

module _ (e : Environment) (cfg : WebConfig) where
  unfoldable pub build_callback_url : Uuid → String → String
  build_callback_url client provider =
      let host_port =
        if str_eq cfg.port "" || str_eq cfg.port "80" || str_eq cfg.port "443"
        then cfg.host_name
        else str_append cfg.host_name (str_append ":" cfg.port) in
      str_append cfg.scheme (
        str_append "://" (
          str_append host_port (
            str_append "/web/auth/" (
              str_append (e.uuid_string client)
                (str_append "/" (str_append provider "/callback"))))))

  module _ (s : Providers) where
    abbrev pub start_login : String → String → Option String → Uuid → M (Reply LoginRedirect)
    start_login provider redirect_uri scope client =
        or_answer (generate_secure_token e 32) (λ r. failure 500 "internal server error")
          λ state.
            or_answer
              (initiate_authorization e s client provider (build_callback_url client provider)
                redirect_uri state)
              handle_redirect_error
              λ url. pure (
                success 307 (record {
                  cookie = encode_session e cfg.signing_key (record {
                    state = state;
                    client_id = e.uuid_string client;
                    provider = provider;
                    redirect_uri = redirect_uri;
                    scope = scope;
                  });
                  location = url;
                }))

    abbrev pub login_for : Request → Option Uuid → M (Reply LoginRedirect)
    login_for r none = pure (failure 400 "invalid client_id; must be a UUID")
    login_for r (some client) =
        if str_eq (r.param "provider") ""
        then pure (failure 400 "missing provider")
        else if str_eq (or_empty (r.query "redirect_uri")) ""
        then pure (failure 400 "redirect_uri is required")
        else start_login (r.param "provider") (or_empty (r.query "redirect_uri"))
            (str_ptr (or_empty (r.query "scope"))) client

    unfoldable pub login_page : Request → M (Reply LoginRedirect)
    login_page r = login_for r (e.parse_uuid (r.param "client_id"))

    abbrev pub redirect_to : Option String → Reply String
    redirect_to none = failure 500 "invalid redirect URI"
    redirect_to (some url) = success 302 url

    -- the callback of the provider, and the redirect to the client
    unfoldable pub finish : Request → Uuid → OauthSession → M (Reply String)
    finish r client session =
        or_answer
          (handle_provider_callback e s client (r.param "provider") (or_empty (r.query "code"))
            (build_callback_url client (r.param "provider")) session.redirect_uri session.scope)
          handle_callback_error λ code. pure (redirect_to (e.with_code session.redirect_uri code))

    -- The session is the cookie's.
    abbrev pub with_session : Request → Uuid → Result OauthSession → M (Reply String)
    with_session r client (err x) =
        pure (failure 400 "invalid session; please restart the login flow")
    with_session r client (ok session) =
        if not (str_eq (or_empty (r.query "state")) session.state)
        then pure (failure 400 "state mismatch; possible CSRF attack")
        else if not (str_eq session.client_id (e.uuid_string client))
            || not (str_eq session.provider (r.param "provider"))
        then pure (failure 400 "session context mismatch; please restart the login flow")
        else finish r client session

    abbrev pub with_session_cookie : Request → Uuid → Option String → M (Reply String)
    with_session_cookie r client none =
        pure (failure 400 "missing session cookie; please restart the login flow")
    with_session_cookie r client (some cookie) =
        with_session r client (decode_session e cfg.signing_key cookie)

    abbrev pub callback_for : Request → Option Uuid → M (Reply String)
    callback_for r none = pure (failure 400 "invalid client_id; must be a UUID")
    callback_for r (some client) =
        if str_eq (r.param "provider") ""
        then pure (failure 400 "missing provider")
        else if not (str_eq (or_empty (r.query "error")) "")
        then pure (failure 400 (or_empty (r.query "error")))
        else if str_eq (or_empty (r.query "code")) "" || str_eq (or_empty (r.query "state")) ""
        then pure (failure 400 "missing code or state parameter")
        else with_session_cookie r client (r.cookie "oauth_session")

    unfoldable pub callback_page : Request → M (Reply String)
    callback_page r = callback_for r (e.parse_uuid (r.param "client_id"))
