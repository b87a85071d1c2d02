-- ===== src/Auth/Authorization/Granted.antt =====
-- What an exchange that returns tokens has checked, and what it has stored.
use goauth_server.Prelude.{
  ℕ, ◌≡◌, refl, Bool, true, false, ◌&&◌, ◌==◌, ==_iff, str_eq, eq_iff, eq_refl, is_true, is_some,
  contains, or_empty, String, List, none, some, select_first, exists, Bool-cases, inl, inr, ◌⊎◌,
  arith, ◌||◌, sym,
}
use goauth_server.Model.{Uuid, Client, AuthorizationCode, RefreshToken, Db}
use goauth_server.Environment.{Environment}
use goauth_server.Exec.{World, ok}
use goauth_server.Exec.Hoare.{
  Triple, Triple-bind, Triple-keeps, Triple-map_error, Triple-pure, Triple-if, Triple-statement,
  Triple-at,
}
use goauth_server.Exec.Facts.{
  Any, Unchanged, Triple-assume, Triple-weaken_post, after_guard, last_guard, after_unknown,
  after_query, after_ask, after_row,
}
use goauth_server.Exec.Keeps.{Ages}
use goauth_server.Repository.Clients.{get_client}
use goauth_server.Repository.Codes.{get_authorization_code}
use goauth_server.Repository.Users.{get_user_by_id}
use goauth_server.Repository.RefreshTokens.{
  CreateRefreshTokenParams, create_refresh_token, new_refresh_token,
}
use goauth_server.Repository.Blind.{frame_rules}
use goauth_server.Repository.Frames.{On, On-Ages, refresh_rows}
use goauth_server.Auth.Service.{Service, TokenResponse, sha256_hex, after, time_now}
use goauth_server.Auth.Rotation.Granted.{Authentic, check_client-Authentic}
use goauth_server.Auth.Authorization.{
  check_code, issue_code_token, issue_refresh_token, redeem_code, exchange_code_for_token,
}

-- The refresh token with the hash is in the table: live, the first of its family, and for the
-- client, user and scope of the code.
pub record Begun (hash : String) (c : AuthorizationCode) (t : ℕ) (rows : List RefreshToken)
    : Type 0 where
  pub token : RefreshToken
  pub found : select_first (λ r. str_eq r.token_hash hash) rows ≡ some token
  pub live : token.is_revoked ≡ false
  pub previous : token.previous_token_id ≡ none
  pub client : token.client_id ≡ c.client_id
  pub user : token.user_id ≡ c.user_id
  pub scope : token.scope ≡ or_empty c.scope

-- The client may have refresh tokens and the scope asks for one.
abbrev pub offline : Client → AuthorizationCode → Bool
offline client c = client.allow_refresh_tokens && contains (or_empty c.scope) "offline_access"

module _ (e : Environment) where
  -- The code is in the table, is neither revoked nor used, was issued to the client for the redirect
  -- URI, and had not expired when the clock was read.
  pub record Exchangeable (d : Db) (code : String) (client_id : Uuid) (redirect_uri : String)
      (c : AuthorizationCode) : Type 0 where
    pub found : select_first (λ r. str_eq r.code code) d.codes ≡ some c
    pub live : is_true c.is_revoked ≡ false
    pub unused : is_some c.used_at ≡ false
    pub bound : c.client_id ≡ client_id
    pub redirect : c.redirect_uri ≡ redirect_uri
    pub reading : ℕ
    pub unexpired : after (e.time reading) c.expires_at ≡ false

  -- A refresh token is returned exactly where one is due.
  abbrev pub Refreshable : Client → AuthorizationCode → String → World → Type 0
  Refreshable client c value w =
      ((offline client c ≡ true) × On refresh_rows (Begun (sha256_hex e value) c) w)
      ⊎ ((offline client c ≡ false) × (value ≡ ""))

  -- What an exchange shows that returned `resp`, when it began in the database `d`.
  pub record Exchanged (d : Db) (code : String) (client_id : Uuid)
      (client_secret redirect_uri : String) (resp : TokenResponse) (w : World) : Type 0 where
    pub authentic : Authentic e d client_id client_secret
    pub row : AuthorizationCode
    pub exchangeable : Exchangeable d code client_id redirect_uri row
    pub scope : resp.scope ≡ row.scope
    pub refreshable : Refreshable authentic.client row resp.refresh_token w

Begun-Ages : (hash : String) (c : AuthorizationCode) → Ages (On refresh_rows (Begun hash c))
Begun-Ages hash c = On-Ages _ _ λ t rows p. record {
  token = p.token;
  found = p.found;
  live = p.live;
  previous = p.previous;
  client = p.client;
  user = p.user;
  scope = p.scope;
}

module _ (e : Environment) (s : Service) where
  check_code-Exchangeable :
      (d : Db) (code : String) (c : AuthorizationCode) (client_id : Uuid) (redirect_uri : String)
      → select_first (λ r. str_eq r.code code) d.codes ≡ some c
      → Triple
          (Unchanged d)
          (check_code e s c client_id redirect_uri)
          (λ a w. Unit {0} × Exchangeable e d code client_id redirect_uri c)
          Any
  unfolding check_code time_now
  check_code-Exchangeable d code c client_id redirect_uri found = after_guard _ _ _ λ live.
      after_guard _ _ _ λ unused. after_ask e d _ _ λ k. after_guard _ _ _ λ unexpired.
        after_guard _ _ _ λ bound. last_guard _ _ λ w p same. (
          tt,
          record {
            found = found;
            live = ground arith;
            unused = ground arith;
            bound = (==_iff c.client_id client_id).0 bound;
            redirect = (eq_iff c.redirect_uri redirect_uri).0 same;
            reading = k;
            unexpired = ground arith;
          },
        )

  -- The first token of a family is stored with what the request for it says.
  create_refresh_token-Begun :
      {P : World → Type 0} (c : AuthorizationCode) (arg : CreateRefreshTokenParams)
      → arg.previous_token_id ≡ none
      → arg.client_id ≡ c.client_id
      → arg.user_id ≡ c.user_id
      → arg.scope ≡ or_empty c.scope
      → Triple P (create_refresh_token e arg) (λ a. On refresh_rows (Begun arg.token_hash c)) Any
  unfolding create_refresh_token refresh_rows select_first new_refresh_token
  create_refresh_token-Begun c arg previous client user scope =
      Triple-statement e _ (λ w p. tt)
        λ w p.
          elim (Bool-cases (
            exists (λ r. str_eq r.token_hash arg.token_hash || r.id == e.uuid w.tick)
              w.db.refresh_tokens)) [
                | inl taken ↦ rw taken tt
                | inr free ↦ rw free (record {
                  holds = record {
                    token = new_refresh_token (e.time w.tick) (e.uuid w.tick) arg;
                    found = rw eq_refl;
                    live = refl;
                    previous = previous;
                    client = client;
                    user = user;
                    scope = scope;
                  };
                })
              ]

  issue_refresh_token-Begun :
      (c : AuthorizationCode) (client_id user access_token_id : Uuid)
      → c.client_id ≡ client_id
      → user ≡ c.user_id
      → Triple
          (λ w. Unit {0})
          (issue_refresh_token e s c client_id user access_token_id)
          (λ value. On refresh_rows (Begun (sha256_hex e value) c))
          Any
  unfolding issue_refresh_token
  issue_refresh_token-Begun c client_id user access_token_id bound same = after_unknown _ _ λ value.
      after_unknown _ _ λ family. after_unknown _ _ λ now.
        Triple-bind _ _ _
          (Triple-map_error _ _ (create_refresh_token-Begun c _ refl (sym bound) same refl))
          λ row.
            Triple-bind _ _ _ (Triple-keeps _ (search (frame_rules, Begun-Ages)) (λ w p. tt))
              λ _. Triple-pure value (λ w p. p)

  -- The access token is issued for the user of the code.
  issue_code_token-user :
      (c : AuthorizationCode) (client_id : Uuid)
      → Triple
          (λ w. Unit {0})
          (issue_code_token e s c client_id)
          (λ r w. Unit {0} × (r.1 ≡ c.user_id))
          Any
  unfolding issue_code_token get_user_by_id
  issue_code_token-user c client_id =
      after_row e _ (λ r. r.id == c.user_id) (λ d'. d'.users) _
        λ user it. after_unknown _ _ λ token. after_unknown _ _ λ now.
          after_unknown _ _ λ row. Triple-pure _ (λ w p. (tt, (==_iff user.id c.user_id).0 it))

  redeem_code-Refreshable :
      (client : Client) (c : AuthorizationCode) (client_id : Uuid)
      → c.client_id ≡ client_id
      → Triple
          (λ w. Unit {0})
          (redeem_code e s client c client_id)
          (λ resp w. (resp.scope ≡ c.scope) × Refreshable e client c resp.refresh_token w)
          Any
  unfolding redeem_code
  redeem_code-Refreshable client c client_id bound = after_unknown _ _ λ _.
      Triple-bind _ _ _ (issue_code_token-user c client_id) λ (token, user, access_token_id).
        Triple-assume _ λ its_user.
          Triple-bind (Refreshable e client c) _ _
            (Triple-if (offline client c) _ _
              (λ due.
                Triple-weaken_post _ (λ value w p. inl (due, p))
                  (issue_refresh_token-Begun c client_id user access_token_id bound its_user))
              (λ other. Triple-pure "" (λ w p. inr (other, refl))))
            λ value. Triple-pure _ (λ w p. (refl, p))

  exchange-Exchanged :
      (d : Db) (code : String) (client_id : Uuid) (client_secret redirect_uri : String)
      → Triple
          (Unchanged d)
          (exchange_code_for_token e s code client_id client_secret redirect_uri)
          (Exchanged e d code client_id client_secret redirect_uri)
          Any
  unfolding exchange_code_for_token get_client get_authorization_code
  exchange-Exchanged d code client_id client_secret redirect_uri =
      after_query e d _ (λ d'. select_first (λ r. r.id == client_id) d'.clients) _
        λ client its. Triple-bind _ _ _ (check_client-Authentic e d client client_secret) λ _.
          Triple-assume _ λ checked.
            after_query e d _ (λ d'. select_first (λ r. str_eq r.code code) d'.codes) _
              λ c found.
                Triple-bind _ _ _ (check_code-Exchangeable d code c client_id redirect_uri found)
                  λ _. Triple-assume _ λ able.
                    Triple-weaken_post _
                      (λ resp w p. record {
                        authentic = record {
                          client = client;
                          found = its;
                          active = checked.0;
                          secret_hash = checked.1;
                        };
                        row = c;
                        exchangeable = able;
                        scope = p.0;
                        refreshable = p.1;
                      })
                      (redeem_code-Refreshable client c client_id able.bound)

-- An exchange returns tokens only for an active client with the right secret, and for a code that was
-- in the table at the start, neither revoked nor used, issued to this client for this redirect URI,
-- and not expired at a reading of the clock. The response has the scope of the code. If the client may have
-- refresh tokens and the scope asks for one, the refresh token that is returned is in the table: live, with
-- no predecessor, for the client, user and scope of the code. Otherwise none is returned.
pub exchange_sound :
    (e : Environment) (s : Service) (code : String) (client_id : Uuid)
    (client_secret redirect_uri : String) (w : World) (resp : TokenResponse)
    → (exchange_code_for_token e s code client_id client_secret redirect_uri w).0 ≡ ok resp
    → Exchanged e w.db code client_id client_secret redirect_uri resp
        (exchange_code_for_token e s code client_id client_secret redirect_uri w).1
exchange_sound e s code client_id client_secret redirect_uri w resp h =
    Triple-at (exchange-Exchanged e s w.db code client_id client_secret redirect_uri) w resp
      (record { same = refl }) h
