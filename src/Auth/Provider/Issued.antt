-- ===== src/Auth/Provider/Issued.antt =====
-- What stands behind an authorization code that the callback of a provider returns.
use goauth_server.Prelude.{
  ◌≡◌, refl, String, Bool, true, false, not, ◌||◌, ◌&&◌, ◌==◌, Option, some, none, str_eq, eq_refl,
  is_true, select_first, exists, Bool-cases, inl, inr,
}
use goauth_server.Model.{Db, Uuid, User, Client, OauthProvider, AuthorizationCode}
use goauth_server.Environment.{Environment}
use goauth_server.Exec.{ok, World}
use goauth_server.Exec.Hoare.{
  Triple, Triple-bind, Triple-pure, Triple-map_error, Triple-statement, Triple-lift_option,
  Triple-at,
}
use goauth_server.Exec.Facts.{
  Any, Unchanged, Triple-assume, Triple-lift_result, Triple-weaken_post, after_guard, after_option,
  after_query, after_ask, after_unknown,
}
use goauth_server.Repository.Clients.{get_client}
use goauth_server.Repository.Codes.{
  create_authorization_code, new_code, CreateAuthorizationCodeParams,
}
use goauth_server.Repository.Providers.{get_oauth_provider_by_client_and_name}
use goauth_server.ProviderService.{
  Providers, ProviderWithSecret, to_oauth_provider, find_provider_by_name, reveal,
  get_provider_with_secret_by_client_and_name,
}
use goauth_server.Auth.Provider.{
  ProviderUserInfo, exchange_provider_code, fetch_user_info, find_active_client, issue_code,
  handle_provider_callback,
}
use goauth_server.Auth.Provider.Upserted.{Identified, upsert_user-Identified}

-- The client with the identifier is active.
pub record ActiveClient (d : Db) (id : Uuid) : Type 0 where
  pub client : Client
  pub found : select_first (λ r. r.id == id) d.clients ≡ some client
  pub active : is_true client.is_active ≡ true

-- The provider is the client's, by its name.
pub record KnownProvider (d : Db) (client : Uuid) (name : String) (p : ProviderWithSecret)
    : Type 0 where
  pub row : OauthProvider
  pub found : select_first (λ r. r.client_id == client && str_eq r.name name) d.providers ≡ some row
  pub viewed : p.provider ≡ to_oauth_provider row

-- The provider has named the user and an email address.
pub record Complete (info : ProviderUserInfo) : Type 0 where
  pub subject : str_eq info.sub "" ≡ false
  pub address : str_eq info.email "" ≡ false

-- The code finds a row of the client, the user, the provider and the redirect URI.
pub record CodeOf (client user provider : Uuid) (redirect_uri code : String) (d : Db) : Type 0 where
  pub row : AuthorizationCode
  pub found : select_first (λ r. str_eq r.code code) d.codes ≡ some row
  pub of_client : row.client_id ≡ client
  pub of_user : row.user_id ≡ user
  pub of_provider : row.provider_id ≡ provider
  pub of_uri : row.redirect_uri ≡ redirect_uri
  pub unused : row.used_at ≡ none

module _ (e : Environment) (d : Db) where
  find_active_client-Active :
      (id : Uuid)
      → Triple
          (Unchanged d)
          (find_active_client e id)
          (λ c w. Unchanged d w × ActiveClient d id)
          Any
  unfolding find_active_client get_client
  find_active_client-Active id =
      after_query e d _ (λ d. select_first (λ r. r.id == id) d.clients) _
        λ c found.
          after_guard _ _ _ λ active.
            Triple-pure c λ w p. (p, record { client = c; found = found; active = active })

  provider-Known :
      (s : Providers) (client : Uuid) (name : String)
      → Triple
          (Unchanged d)
          (get_provider_with_secret_by_client_and_name e s client name)
          (λ p w. Unchanged d w × KnownProvider d client name p)
          Any
  unfolding get_provider_with_secret_by_client_and_name find_provider_by_name reveal
      get_oauth_provider_by_client_and_name
  provider-Known s client name =
      after_query e d _
        (λ d. select_first (λ r. r.client_id == client && str_eq r.name name) d.providers) _
        λ row found.
          Triple-bind (λ secret. Unchanged d) _ _ (Triple-map_error _ _ (Triple-lift_result _))
            λ secret. Triple-pure _ λ w p. (p, record { row = row; found = found; viewed = refl })

  exchange_provider_code-Unchanged :
      (p : ProviderWithSecret) (code callback_url : String)
      → Triple (Unchanged d) (exchange_provider_code e p code callback_url) (λ t. Unchanged d) Any
  unfolding exchange_provider_code
  exchange_provider_code-Unchanged p code callback_url =
      after_ask e d _ _ λ k. Triple-lift_option _ _ (λ t w it u. u) λ w u. tt

  is_off : (b : Bool) → not b ≡ true → b ≡ false
  is_off true h = cc
  is_off false h = refl

  fetch_user_info-Complete :
      (token url : String)
      → Triple
          (Unchanged d)
          (fetch_user_info e token url)
          (λ info w. Unchanged d w × Complete info)
          Any
  unfolding fetch_user_info
  fetch_user_info-Complete token url = after_ask e d _ _ λ k. after_option _ _ _ λ raw it.
      after_guard _ _ _ λ subject. after_guard _ _ _ λ address.
        Triple-pure _ λ w u. (u, record { subject = is_off _ subject; address = is_off _ address })

  create_authorization_code-CodeOf :
      (arg : CreateAuthorizationCodeParams)
      → Triple
          (λ w. Unit {0})
          (create_authorization_code e arg)
          (λ x w.
            Unit {0}
            × CodeOf arg.client_id arg.user_id arg.provider_id arg.redirect_uri arg.code w.db)
          Any
  unfolding create_authorization_code new_code select_first
  create_authorization_code-CodeOf arg =
      Triple-statement e _ (λ w p. tt)
        λ w p.
          elim (Bool-cases
            (exists (λ r. str_eq r.code arg.code || r.id == e.uuid w.tick) w.db.codes)) [
              | inl taken ↦ rw taken tt
              | inr free ↦ rw free (
                tt,
                record {
                  row = new_code (e.time w.tick) (e.uuid w.tick) arg;
                  found = rw (eq_refl arg.code) refl;
                  of_client = refl;
                  of_user = refl;
                  of_provider = refl;
                  of_uri = refl;
                  unused = refl;
                },
              )
            ]

  issue_code-CodeOf :
      (client : Uuid) (user : User) (p : ProviderWithSecret) (uri : String) (scope : Option String)
      → Triple
          (λ w. Unit {0})
          (issue_code e client user p uri scope)
          (λ code w. CodeOf client user.id p.provider.id uri code w.db)
          Any
  unfolding issue_code
  issue_code-CodeOf client user p uri scope = after_unknown _ _ λ code. after_unknown _ _ λ now.
      Triple-bind (λ x w. CodeOf client user.id p.provider.id uri code w.db) _ _
        (Triple-map_error _ _
          (Triple-weaken_post _ (λ x w q. q.1) (create_authorization_code-CodeOf _)))
        λ x. Triple-pure code λ w q. q

-- All that the callback has established where it returns a code.
pub record Issued (before after : Db) (client : Uuid) (name redirect_uri code : String)
    : Type 0 where
  pub client_active : ActiveClient before client
  pub provider : ProviderWithSecret
  pub provider_known : KnownProvider before client name provider
  pub enabled : provider.provider.is_enabled ≡ true
  pub info : ProviderUserInfo
  pub complete : Complete info
  pub user : User
  pub identified : Identified before provider.provider.name info user
  pub stored : CodeOf client user.id provider.provider.id redirect_uri code after

-- Where the callback of a provider returns an authorization code, the client is active, the provider
-- is the client's and enabled, the provider has answered with a subject and an email address, and the
-- code finds an unused row of the client, the provider, the redirect URI and the user: the one recorded
-- for the subject, or one made for it.
pub callback_sound :
    (e : Environment) (s : Providers) (client : Uuid) (name code callback_url redirect_uri : String)
    (scope : Option String) (w : World) (issued : String)
    → (handle_provider_callback e s client name code callback_url redirect_uri scope w).0
      ≡ ok issued
    → Issued w.db
        (handle_provider_callback e s client name code callback_url redirect_uri scope w).1.db
        client
        name
        redirect_uri
        issued
unfolding handle_provider_callback
callback_sound e s client name code callback_url redirect_uri scope w issued h =
    Triple-at guarded w issued (record { same = refl }) h
  where
    guarded :
        Triple
          (Unchanged w.db)
          (handle_provider_callback e s client name code callback_url redirect_uri scope)
          (λ issued w'. Issued w.db w'.db client name redirect_uri issued)
          Any
    guarded = Triple-bind _ _ _ (find_active_client-Active e w.db client) λ c.
        Triple-assume _ λ active.
          Triple-bind _ _ _ (Triple-map_error _ _ (provider-Known e w.db s client name)) λ p.
            Triple-assume _ λ known_provider. after_guard _ _ _ λ enabled.
              Triple-bind _ _ _
                (Triple-map_error _ _ (exchange_provider_code-Unchanged e w.db p code callback_url))
                λ token.
                  Triple-bind _ _ _
                    (Triple-map_error _ _
                      (fetch_user_info-Complete e w.db token p.provider.user_info_url))
                    λ info. Triple-assume _ λ complete.
                      Triple-bind _ _ _
                        (Triple-weaken_post _ (λ u w' i. (tt, i))
                          (upsert_user-Identified e w.db p.provider.name info))
                        λ user. Triple-assume _ λ identified.
                          Triple-weaken_post _
                            (λ issued w' stored. record {
                              client_active = active;
                              provider = p;
                              provider_known = known_provider;
                              enabled = enabled;
                              info = info;
                              complete = complete;
                              user = user;
                              identified = identified;
                              stored = stored;
                            })
                            (issue_code-CodeOf e w.db client user p redirect_uri scope)
