-- ===== src/Auth/Calls/CodeOnce.antt =====
-- An authorization code is exchanged at most once.
use goauth_server.Prelude.{true, is_some, arith, ◌≡◌, ◌≢◌, String, List}
use goauth_server.Model.{Uuid, Client, AuthorizationCode}
use goauth_server.Environment.{Environment}
use goauth_server.Exec.{ok, World}
use goauth_server.Exec.Hoare.{Triple, Triple-bind, Triple-keeps, Triple-map_error, Triple-at}
use goauth_server.Exec.Keeps.{keeps_rules}
use goauth_server.Exec.Facts.{Any, Triple-never, after_guard, after_unknown}
use goauth_server.Repository.Frames.{On, code_rows}
use goauth_server.Repository.Blind.{frame_rules}
use goauth_server.Password.{Unicode}
use goauth_server.Auth.Service.{
  Service, TokenResponse, time_now, new_uuid, generate_access_token, generate_secure_token,
}
use goauth_server.Auth.Rotation.{check_client}
use goauth_server.Auth.Authorization.{
  check_code, issue_code_token, issue_refresh_token, redeem_code, exchange_code_for_token,
}
use goauth_server.Auth.Authorization.Spent.{
  Spent, Present, Spent-Ages, Present-Ages, mark_authorization_code_used-Spent,
  mark_authorization_code_used-Present, get_authorization_code-Present,
  get_authorization_code-Spent,
}
use goauth_server.Auth.Calls.Stable.{Stable, handle-Stable}
use goauth_server.Auth.Calls.{Call, serve, serve_induction}

ruleset spent_rules =
    (keeps_rules, frame_rules, Spent-Ages, Present-Ages, mark_authorization_code_used-Spent)

Spent-Stable : (e : Environment) (code : String) → Stable e code_rows (Spent code)
Spent-Stable e code = record {
  ages = Spent-Ages code;
  access_created = λ x. search spent_rules;
  access_revoked = λ x. search spent_rules;
  user_access_revoked = λ x. search spent_rules;
  code_used = λ x. search spent_rules;
  refresh_created = λ x. search spent_rules;
  refresh_used = λ x. search spent_rules;
  refresh_revoked = λ x y. search spent_rules;
  family_revoked = λ x y. search spent_rules;
  user_refresh_revoked = λ x y. search spent_rules;
  failure_counted = λ x. search spent_rules;
  locked = λ x y. search spent_rules;
  failures_reset = λ x. search spent_rules;
  login_recorded = λ x y. search spent_rules;
  flag_set = λ x y. search spent_rules;
  hash_set = λ x y. search spent_rules;
  logged = λ x y. search spent_rules;
}

module _ (e : Environment) (s : Service) (code : String) where
  -- The guards let no code pass that is marked as used.
  check_code-used :
      (c : AuthorizationCode) (client_id : Uuid) (redirect_uri : String)
      → is_some c.used_at ≡ true
      → Triple (On code_rows (Spent code)) (check_code e s c client_id redirect_uri) (λ a w. ⊥) Any
  unfolding check_code
  check_code-used c client_id redirect_uri used =
      after_guard _ _ _ λ live. after_guard _ _ _ λ unused. record { run = λ w p. ground arith }

  Spent-refused :
      (client_id : Uuid) (client_secret redirect_uri : String)
      → Triple
          (On code_rows (Spent code))
          (exchange_code_for_token e s code client_id client_secret redirect_uri)
          (λ a w. ⊥)
          Any
  unfolding exchange_code_for_token check_client
  Spent-refused client_id client_secret redirect_uri =
      Triple-bind _ _ _ (Triple-keeps _ (search spent_rules) (λ w p. tt)) λ client.
        Triple-bind _ _ _ (Triple-keeps _ (search spent_rules depth 9) (λ w p. tt)) λ _.
          Triple-bind _ _ _ (get_authorization_code-Spent e code _) λ c.
            Triple-bind (λ a w. ⊥) _ _
              (record { run = λ w p. (check_code-used c client_id redirect_uri p.0).run w p.1 })
              λ _. Triple-never _

  redeem_code-Present :
      (client : Client) (c : AuthorizationCode) (client_id : Uuid)
      → Triple
          (On code_rows (Present code c))
          (redeem_code e s client c client_id)
          (λ a. On code_rows (Spent code))
          Any
  unfolding redeem_code issue_code_token issue_refresh_token time_now new_uuid generate_access_token
      generate_secure_token
  redeem_code-Present client c client_id =
      Triple-bind _ _ _ (Triple-map_error _ _ (mark_authorization_code_used-Present e code c))
        λ _. Triple-keeps _ (search spent_rules depth 30) (λ w p. tt)

  exchanged-Spent :
      (client_id : Uuid) (client_secret redirect_uri : String)
      → Triple
          (λ w. Unit {0})
          (exchange_code_for_token e s code client_id client_secret redirect_uri)
          (λ a. On code_rows (Spent code))
          Any
  unfolding exchange_code_for_token check_code time_now
  exchanged-Spent client_id client_secret redirect_uri = after_unknown _ _ λ client.
      after_unknown _ _ λ _. Triple-bind _ _ _ (get_authorization_code-Present e code _) λ c.
        Triple-bind _ _ _ (Triple-keeps _ (search spent_rules depth 12) (λ w p. tt))
          λ _. redeem_code-Present client c client_id

module _ (e : Environment) (s : Service) (u : Unicode) where
  -- Once a code was presented and tokens were returned for it, no later presentation of it, by
  -- whatever client and after whatever calls, returns tokens.
  pub exchange_once :
      (code : String) (client_id : Uuid) (client_secret redirect_uri : String) (w : World)
      (first : TokenResponse)
      → (exchange_code_for_token e s code client_id client_secret redirect_uri w).0 ≡ ok first
      → (calls : List Call) (client_id' : Uuid) (client_secret' redirect_uri' : String)
        (second : TokenResponse)
      → (exchange_code_for_token e s code client_id' client_secret' redirect_uri' (
          serve e s u calls
            (exchange_code_for_token e s code client_id client_secret redirect_uri w).1)).0
        ≢ ok second
  exchange_once code client_id client_secret redirect_uri w first h calls client_id' client_secret'
        redirect_uri' second h' =
      Triple-at (Spent-refused e s code client_id' client_secret' redirect_uri') _ second
        (serve_induction e s u (handle-Stable e s (Spent-Stable e code) u) calls _
          (Triple-at (exchanged-Spent e s code client_id client_secret redirect_uri) w first tt h))
        h'
