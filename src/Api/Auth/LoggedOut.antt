-- ===== src/Api/Auth/LoggedOut.antt =====
-- A token that was logged out no longer passes AuthMiddleware.
use goauth_server.Prelude.{
  ◌+◌, ◌≡◌, ◌≢◌, refl, sym, subst, Bool, true, false, String, Option, none, some, List, str_eq,
  select_first,
}
use goauth_server.Model.{Uuid, AccessToken}
use goauth_server.Environment.{Environment, Claims}
use goauth_server.Exec.{Result, ok, err, World, M, ◌>>=◌, ◌>>◌, pure, ignore, statement, map_error}
use goauth_server.Exec.Hoare.{
  Post, Triple, Triple-bind, Triple-pure, Triple-ask, Triple-lift_option, Triple-at,
}
use goauth_server.Exec.Facts.{Any}
use goauth_server.Exec.Keeps.{Keeps, keeps_rules}
use goauth_server.Http.{Request, Context, next, Reply, success}
use goauth_server.Http.Answers.{Triple-or_answer, Passes}
use goauth_server.Password.{Unicode}
use goauth_server.Repository.AccessTokens.{get_access_token, revoke_access_token}
use goauth_server.Repository.Frames.{On, access_rows}
use goauth_server.Auth.Service.{Service, sha256_hex, validate_access_token}
use goauth_server.Auth.Revoke.{
  revoke_raw_token, revoke_token, revoke_user_refresh_tokens, is_token_revoked,
}
use goauth_server.Auth.Revoke.Revoked.{Revoked, Revoked-Ages}
use goauth_server.Auth.Calls.{Call, serve, serve_induction}
use goauth_server.Auth.Calls.StaysRevoked.{
  revoked_rules, Revoked-Stable, Revoked-reported, revoke_raw_token-Revoked,
}
use goauth_server.Auth.Calls.Stable.{handle-Stable}
use goauth_server.Middleware.Auth.{bearer_token, check_revoked, check_token, auth_middleware}
use goauth_server.Api.Auth.{logout, revoke_context_token, revoke_context_user, revoke_parsed}

module _ (e : Environment) (token : String) where
  abbrev Dead : World → Type 0
  Dead = On access_rows (Revoked (sha256_hex e token))

  validate_access_token-Dead : Triple Dead (validate_access_token e token) (λ claims. Dead) Any
  unfolding validate_access_token
  validate_access_token-Dead =
      Triple-bind (λ o. Dead) _ _ (Triple-ask e _ λ w p. (Revoked-Ages (sha256_hex e token)).at w p)
        λ o. Triple-lift_option _ o (λ c w it p. p) λ w p. tt

  is_token_revoked-Dead : Triple Dead (is_token_revoked e token) (λ b w. b ≡ true) Any
  is_token_revoked-Dead = record {
    run = λ w p. go (is_token_revoked e token w) (Revoked-reported e token w p);
  }
    where
      go : (r : Result Bool × World) → r.0 ≢ ok false → Post (λ b w. b ≡ true) Any r
      go (ok true, w) h = refl
      go (ok false, w) h = absurd (h refl)
      go (err x, w) h = tt

  check_revoked-Dead :
      (claims : Claims) (b : Bool)
      → Triple (λ w. b ≡ true) (check_revoked e token claims b) (Passes λ c w. ⊥) Any
  check_revoked-Dead claims true = Triple-pure _ λ w p. tt
  check_revoked-Dead claims false = record { run = λ w p. cc }

  check_token-Dead : Triple Dead (check_token e (some token)) (Passes λ c w. ⊥) Any
  unfolding check_token
  check_token-Dead =
      Triple-or_answer _ _ _ _ _ validate_access_token-Dead
        (λ claims.
          Triple-or_answer _ _ _ _ _ is_token_revoked-Dead (check_revoked-Dead claims)
            (λ x w p. tt))
        (λ x w p. tt)

  -- No request with the token passes, whatever it is besides.
  auth_middleware-Dead :
      (r : Request)
      → bearer_token r ≡ some token
      → Triple Dead (auth_middleware e r) (Passes λ c w. ⊥) Any
  unfolding auth_middleware
  auth_middleware-Dead r h =
      subst (λ o. Triple Dead (check_token e o) (Passes λ c w. ⊥) Any) (sym h) check_token-Dead

  -- The token's row is found and its revocation is written.
  revoke_raw_token-returns :
      (w : World) (t : AccessToken)
      → select_first (λ r. str_eq r.token_hash (sha256_hex e token)) w.db.access_tokens ≡ some t
      → e.fails w.tick ≡ false
      → e.fails (w.tick + 1) ≡ false
      → (revoke_raw_token e token w).0 ≡ ok tt
  unfolding revoke_raw_token revoke_token get_access_token revoke_access_token statement map_error
      ◌>>=◌
  revoke_raw_token-returns w t found first second = rw (first, found, second) refl

  -- The rest of the handler leaves the access tokens alone.
  revoke_parsed-Dead : (o : Option Uuid) → Keeps Dead (revoke_parsed e o)
  unfolding revoke_user_refresh_tokens
  revoke_parsed-Dead none = search (keeps_rules, revoked_rules)
  revoke_parsed-Dead (some id) = search (keeps_rules, revoked_rules)

  revoke_context_user-Dead : (o : Option String) → Keeps Dead (revoke_context_user e o)
  revoke_context_user-Dead none = search keeps_rules
  revoke_context_user-Dead (some id) = search (keeps_rules, revoke_parsed-Dead)

  after_revocation : (c : Context) → M (Reply String)
  after_revocation c =
      revoke_context_user e c.user_id >> pure (success 200 "Logged out successfully")

  after_revocation-Dead : (c : Context) → Keeps Dead (after_revocation c)
  unfolding after_revocation
  after_revocation-Dead c = search (keeps_rules, revoke_context_user-Dead)

  logout-Dead :
      (w : World) (c : Context)
      → c.raw_token ≡ some token
      → (revoke_raw_token e token w).0 ≡ ok tt
      → Dead (logout e c w).1
  unfolding logout ◌>>=◌ ignore after_revocation
  logout-Dead w c held done =
      subst (λ o. Dead ((revoke_context_token e o >> after_revocation c) w).1) (sym held)
        ((after_revocation-Dead c).at (revoke_raw_token e token w).1
          (Triple-at (revoke_raw_token-Revoked e token) w tt tt done))

-- After the logout of a token that has a row, where the statements that find and revoke it do not
-- fail, and whatever calls of the auth service follow, AuthMiddleware lets no request with that token
-- pass.
pub logout_ends_session :
    (e : Environment) (s : Service) (u : Unicode) (w : World) (c : Context) (token : String)
    (t : AccessToken)
    → c.raw_token ≡ some token
    → select_first (λ r. str_eq r.token_hash (sha256_hex e token)) w.db.access_tokens ≡ some t
    → e.fails w.tick ≡ false
    → e.fails (w.tick + 1) ≡ false
    → (calls : List Call) (r : Request) (c' : Context) → bearer_token r ≡ some token
    → (auth_middleware e r (serve e s u calls (logout e c w).1)).0 ≢ ok (next c')
logout_ends_session e s u w c token t held found first second calls r c' presented passed =
    Triple-at (auth_middleware-Dead e token r presented) _ (next c')
      (serve_induction e s u (handle-Stable e s (Revoked-Stable e (sha256_hex e token)) u) calls _
        (logout-Dead e token w c held (revoke_raw_token-returns e token w t found first second)))
      passed
