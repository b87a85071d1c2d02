-- ===== src/Web/Returned.antt =====
-- What a browser that returns from a provider has shown.
use goauth_server.Prelude.{
  ℕ, ◌≡◌, refl, subst, String, Bool, true, false, not, ◌||◌, Option, some, none, str_eq, or_empty,
  if◌then◌else◌,
}
use goauth_server.Model.{Db, Uuid}
use goauth_server.Environment.{Environment, OauthSession}
use goauth_server.Exec.{Error, Result, ok, err, World, M, pure}
use goauth_server.Exec.Hoare.{Triple, Triple-pure, Triple-if, Triple-at, Post}
use goauth_server.Exec.Facts.{Any, Unchanged}
use goauth_server.Http.{Request, Reply, success, failure, errors_is}
use goauth_server.Http.Answers.{Triple-or_answer}
use goauth_server.ProviderService.{Providers}
use goauth_server.Auth.Provider.{handle_provider_callback}
use goauth_server.Auth.Provider.Issued.{Issued, callback_sound}
use goauth_server.Web.{
  WebConfig, build_callback_url, handle_callback_error, redirect_to, finish, is_client_missing,
  is_provider_missing, is_provider_disabled, with_session, with_session_cookie, callback_for,
  callback_page,
}
use goauth_server.Web.Session.{decode_session}

is_not : (b : Bool) → not b ≡ false → b ≡ true
is_not true h = refl
is_not false h = cc

left_of : (a b : Bool) → (not a || not b) ≡ false → a ≡ true
left_of true b h = refl
left_of false b h = cc

right_of : (a b : Bool) → (not a || not b) ≡ false → b ≡ true
right_of true true h = refl
right_of true false h = cc
right_of false b h = cc

module _ (e : Environment) (cfg : WebConfig) (s : Providers) (r : Request) where
  -- The cookie holds a session that the server has signed, of this state, client and provider, and
  -- the provider's callback has issued a code for the redirect URI of that session.
  pub record Shown (before after : Db) (url : String) : Type 0 where
    pub client : Uuid
    pub parsed : e.parse_uuid (r.param "client_id") ≡ some client
    pub cookie : String
    pub sent : r.cookie "oauth_session" ≡ some cookie
    pub session : OauthSession
    pub signed : decode_session e cfg.signing_key cookie ≡ ok session
    pub same_state : str_eq (or_empty (r.query "state")) session.state ≡ true
    pub same_client : str_eq session.client_id (e.uuid_string client) ≡ true
    pub same_provider : str_eq session.provider (r.param "provider") ≡ true
    pub code : String
    pub issued : Issued before after client (r.param "provider") session.redirect_uri code
    pub location : e.with_code session.redirect_uri code ≡ some url

  abbrev Redirects : Db → Reply String → World → Type 0
  Redirects d (success n url) w = Shown d w.db url
  Redirects d (failure n text) w = Unit {0}

  failure-Redirects : (d : Db) (x : Error) (w : World) → Redirects d (handle_callback_error x) w
  unfolding handle_callback_error
  failure-Redirects d x w =
      go (errors_is is_client_missing x) (errors_is is_provider_missing x)
        (errors_is is_provider_disabled x)
    where
      go :
          (client provider disabled : Bool)
          → Redirects d
              (if client
                then failure 401 "client not found or inactive"
                else if provider
                then failure 404 "provider not found for this client"
                else if disabled
                then failure 400 "provider is disabled"
                else failure 500 "authentication failed")
              w
      go true provider disabled = tt
      go false true disabled = tt
      go false false true = tt
      go false false false = tt

  callback-Issued :
      (d : Db) (client : Uuid) (name code callback_url redirect_uri : String)
      (scope : Option String)
      → Triple
          (Unchanged d)
          (handle_provider_callback e s client name code callback_url redirect_uri scope)
          (λ issued w. Issued d w.db client name redirect_uri issued)
          Any
  callback-Issued d client name code callback_url redirect_uri scope = record {
    run = λ w p.
        go (handle_provider_callback e s client name code callback_url redirect_uri scope w)
          λ issued h.
            subst
              (λ d.
                Issued d
                  (handle_provider_callback e s client name code callback_url redirect_uri scope
                    w).1.db
                  client name redirect_uri issued)
              p.same
              (callback_sound e s client name code callback_url redirect_uri scope w issued h);
  }
    where
      go :
          (r : Result String × World)
          → ((issued : String) → r.0 ≡ ok issued → Issued d r.1.db client name redirect_uri issued)
          → Post (λ issued w. Issued d w.db client name redirect_uri issued) Any r
      go (ok issued, w) h = h issued refl
      go (err x, w) h = tt

  module _ (d : Db) (client : Uuid)
      (parsed : e.parse_uuid (r.param "client_id") ≡ some client) where
    redirect_to-Shown :
        (cookie : String)
        → r.cookie "oauth_session" ≡ some cookie
        → (session : OauthSession) → decode_session e cfg.signing_key cookie ≡ ok session
        → str_eq (or_empty (r.query "state")) session.state ≡ true
        → str_eq session.client_id (e.uuid_string client) ≡ true
        → str_eq session.provider (r.param "provider") ≡ true
        → (code : String) (w : World)
        → Issued d w.db client (r.param "provider") session.redirect_uri code
        → (o : Option String) → e.with_code session.redirect_uri code ≡ o
        → Redirects d (redirect_to e cfg s o) w
    redirect_to-Shown cookie sent session signed state own provider code w issued none at = tt
    redirect_to-Shown cookie sent session signed state own provider code w issued (some url) at =
        record {
          client = client;
          parsed = parsed;
          cookie = cookie;
          sent = sent;
          session = session;
          signed = signed;
          same_state = state;
          same_client = own;
          same_provider = provider;
          code = code;
          issued = issued;
          location = at;
        }

    finish-Redirects :
        (cookie : String)
        → r.cookie "oauth_session" ≡ some cookie
        → (session : OauthSession) → decode_session e cfg.signing_key cookie ≡ ok session
        → str_eq (or_empty (r.query "state")) session.state ≡ true
        → str_eq session.client_id (e.uuid_string client) ≡ true
        → str_eq session.provider (r.param "provider") ≡ true
        → Triple (Unchanged d) (finish e cfg s r client session) (Redirects d) Any
    unfolding finish
    finish-Redirects cookie sent session signed state own provider =
        Triple-or_answer _ _ _ _ _
          (callback-Issued d client (r.param "provider") (or_empty (r.query "code"))
            (build_callback_url e cfg client (r.param "provider")) session.redirect_uri
            session.scope)
          (λ code. Triple-pure _ λ w issued.
            redirect_to-Shown cookie sent session signed state own provider code w issued _ refl)
          (λ x w p. failure-Redirects d x w)

    with_session-Redirects :
        (cookie : String)
        → r.cookie "oauth_session" ≡ some cookie
        → (o : Result OauthSession) → decode_session e cfg.signing_key cookie ≡ o
        → Triple (Unchanged d) (with_session e cfg s r client o) (Redirects d) Any
    with_session-Redirects cookie sent (err x) signed = Triple-pure _ λ w p. tt
    with_session-Redirects cookie sent (ok session) signed =
        Triple-if (not (str_eq (or_empty (r.query "state")) session.state)) _ _
          (λ other. Triple-pure _ λ w p. tt)
          λ same.
            Triple-if
              (not (str_eq session.client_id (e.uuid_string client))
                || not (str_eq session.provider (r.param "provider")))
              (pure (failure 400 "session context mismatch; please restart the login flow"))
              (finish e cfg s r client session) (λ other. Triple-pure _ λ w p. tt)
              λ both.
                finish-Redirects cookie sent session signed (is_not _ same) (left_of _ _ both)
                  (right_of _ _ both)

    with_cookie-Redirects :
        (o : Option String)
        → r.cookie "oauth_session" ≡ o
        → Triple (Unchanged d) (with_session_cookie e cfg s r client o) (Redirects d) Any
    with_cookie-Redirects none sent = Triple-pure _ λ w p. tt
    with_cookie-Redirects (some cookie) sent = with_session-Redirects cookie sent _ refl

  refused_if :
      (d : Db) (b : Bool) (text : String) (m : M (Reply String))
      → Triple (Unchanged d) m (Redirects d) Any
      → Triple (Unchanged d) (if b then pure (failure 400 text) else m) (Redirects d) Any
  refused_if d true text m t = Triple-pure _ λ w p. tt
  refused_if d false text m t = t

  callback_for-Redirects :
      (d : Db) (o : Option Uuid)
      → e.parse_uuid (r.param "client_id") ≡ o
      → Triple (Unchanged d) (callback_for e cfg s r o) (Redirects d) Any
  callback_for-Redirects d none parsed = Triple-pure _ λ w p. tt
  callback_for-Redirects d (some client) parsed =
      refused_if d (str_eq (r.param "provider") "") "missing provider"
        (if not (str_eq (or_empty (r.query "error")) "")
          then pure (failure 400 (or_empty (r.query "error")))
          else if str_eq (or_empty (r.query "code")) "" || str_eq (or_empty (r.query "state")) ""
          then pure (failure 400 "missing code or state parameter")
          else with_session_cookie e cfg s r client (r.cookie "oauth_session"))
        (refused_if d (not (str_eq (or_empty (r.query "error")) "")) (or_empty (r.query "error"))
          (if str_eq (or_empty (r.query "code")) "" || str_eq (or_empty (r.query "state")) ""
            then pure (failure 400 "missing code or state parameter")
            else with_session_cookie e cfg s r client (r.cookie "oauth_session"))
          (refused_if d
            (str_eq (or_empty (r.query "code")) "" || str_eq (or_empty (r.query "state")) "")
            "missing code or state parameter"
            (with_session_cookie e cfg s r client (r.cookie "oauth_session"))
            (with_cookie-Redirects d client parsed _ refl)))

-- Where the callback page redirects a browser, its cookie holds a session that the server has signed,
-- for the state, the client and the provider of the request; the provider's callback has issued a code
-- for the redirect URI of that session; and the browser is sent to that URI with the code.
pub callback_page_sound :
    (e : Environment) (cfg : WebConfig) (s : Providers) (r : Request) (w : World) (n : ℕ)
    (url : String)
    → (callback_page e cfg s r w).0 ≡ ok (success n url)
    → Shown e cfg s r w.db (callback_page e cfg s r w).1.db url
unfolding callback_page
callback_page_sound e cfg s r w n url h =
    Triple-at (callback_for-Redirects e cfg s r w.db _ refl) w (success n url)
      (record { same = refl }) h
