-- ===== src/Middleware/Routes.antt =====
-- What a request has shown that reaches a handler behind the middleware.
use goauth_server.Prelude.{◌≡◌, refl, Bool, true, false, String, subst, sym}
use goauth_server.Model.{Db}
use goauth_server.Environment.{Environment}
use goauth_server.Exec.{World, ok, pure}
use goauth_server.Exec.Hoare.{
  Triple, Triple-bind, Triple-pure, Triple-ask, Triple-at, Triple-weaken,
}
use goauth_server.Exec.Facts.{Any, Unchanged, Triple-assume}
use goauth_server.Http.{Request, Context, next, and_next}
use goauth_server.Middleware.{gate_rate, rate_limit_by_user, protected_route, admin_route}
use goauth_server.Http.Answers.{Passes, Triple-and_next}
use goauth_server.Middleware.Auth.Passed.{
  Authenticated, Authorized, auth_middleware-Authenticated, admin_middleware-Authorized,
}
use goauth_server.Middleware.Csrf.{csrf_middleware}
use goauth_server.Middleware.Csrf.Passed.{Source, Echoed, csrf_middleware-OnNext}

module _ (e : Environment) (r : Request) where
  -- What every route behind AuthMiddleware and CSRFMiddleware has checked.
  pub record Protected (d : Db) (c : Context) (token : String) : Type 0 where
    pub authenticated : Authenticated e d r c
    pub source : Source e r token
    pub echoed : Echoed e r token

  then_csrf :
      (d : Db) (c : Context) (F : Context → Type 0)
      → F c
      → Authenticated e d r c
      → Triple
          (λ w. Unit {0})
          (and_next {B = Context × String} (csrf_middleware e r) λ token. pure (next (c, token)))
          (Passes λ x w. Protected d x.0 x.1 × F x.0)
          Any
  then_csrf d c F fact h =
      Triple-and_next _ _ _ (csrf_middleware-OnNext e r) λ token.
        Triple-pure _ λ w p. (record { authenticated = h; source = p.0; echoed = p.1 }, fact)

  rate_limit_by_user-same :
      (c : Context) → Triple (λ w. Unit {0}) (rate_limit_by_user e r c) (Passes λ c' w. c' ≡ c) Any
  unfolding rate_limit_by_user gate_rate
  rate_limit_by_user-same c =
      Triple-bind (λ b w. Unit {0}) _ _ (Triple-ask e _ λ w p. tt) λ b. Triple-pure _ λ w p. go b w
    where
      go : (b : Bool) (w : World) → Passes (λ c' w. c' ≡ c) (gate_rate c b) w
      go true w = refl
      go false w = tt

  -- A request that reaches the handler of a protected route has a bearer token that the environment
  -- accepts and that is not recorded as revoked, and has passed the CSRF check.
  pub session_route_sound :
      (w : World) (c : Context) (token : String)
      → (protected_route e r w).0 ≡ ok (next (c, token))
      → Protected w.db c token
  unfolding protected_route
  session_route_sound w c token h =
      (Triple-at guarded w (next (c, token)) (record { same = refl }) h).0
    where
      guarded :
          Triple
            (Unchanged w.db)
            (protected_route e r)
            (Passes λ x w'. Protected w.db x.0 x.1 × Unit {0})
            Any
      guarded = Triple-and_next _ _ _ (auth_middleware-Authenticated e w.db r) λ c.
          Triple-assume _ λ h. Triple-weaken _ (λ w' p. tt) (then_csrf w.db c (λ c. Unit {0}) tt h)

  -- A request that reaches the handler of an administrator's route moreover carries the identifier
  -- of a user in the table that has the flag of an administrator.
  pub admin_sound :
      (w : World) (c : Context) (token : String)
      → (admin_route e r w).0 ≡ ok (next (c, token))
      → Protected w.db c token × Authorized e w.db c
  unfolding admin_route
  admin_sound w c token h = Triple-at guarded w (next (c, token)) (record { same = refl }) h
    where
      limited :
          (c : Context)
          → Authenticated e w.db r c
          → Authorized e w.db c
          → Triple
              (λ w'. Unit {0})
              (and_next (rate_limit_by_user e r c) λ c.
                and_next {B = Context × String}
                  (csrf_middleware e r)
                  λ token. pure (next (c, token)))
              (Passes λ x w'. Protected w.db x.0 x.1 × Authorized e w.db x.0)
              Any
      limited c authenticated authorized = Triple-and_next _ _ _ (rate_limit_by_user-same c) λ c'.
          record {
            run = λ w' same.
                (then_csrf w.db c' (Authorized e w.db)
                    (subst (Authorized e w.db) (sym same) authorized)
                    (subst (Authenticated e w.db r) (sym same) authenticated)).run
                  w' tt;
          }

      guarded :
          Triple
            (Unchanged w.db)
            (admin_route e r)
            (Passes λ x w'. Protected w.db x.0 x.1 × Authorized e w.db x.0)
            Any
      guarded = Triple-and_next _ _ _ (auth_middleware-Authenticated e w.db r) λ c.
          Triple-assume _ λ authenticated.
            Triple-and_next _ _ _ (admin_middleware-Authorized e w.db c) λ c'.
              Triple-assume _ λ (same, authorized).
                Triple-weaken _ (λ w' p. tt)
                  (limited c' (subst (Authenticated e w.db r) (sym same) authenticated) authorized)
