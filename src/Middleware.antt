-- ===== src/Middleware.antt =====
-- internal/middleware, and the groups of routes in internal/transport/http/api/v1/router.go that it
-- guards. A limiter is golang.org/x/time/rate's: the environment says what the limiter of a key
-- answers, so that the map of the limiters and its cleanup are left out.
pub mod Auth
pub mod Csrf
pub mod Routes
use goauth_server.Prelude.{ℕ, String, Bool, true, false, Option, none, some, str_append}
use goauth_server.Environment.{Environment}
use goauth_server.Exec.{Result, ok, err, M, ◌>>=◌, pure, ask}
use goauth_server.Http.{Request, Context, Gate, next, abort, go_on, and_next}
use goauth_server.Middleware.Auth.{auth_middleware, admin_middleware}
use goauth_server.Middleware.Csrf.{csrf_middleware}

-- the key of the limiter of a user, or of an address where there is no user
unfoldable pub limiter_key : Request → Option String → String
limiter_key r none = str_append "ip:" r.client_ip
limiter_key r (some id) = str_append "user:" id

module _ {A : Type 0} where
  unfoldable pub gate_rate : A → Bool → Gate A
  gate_rate a true = next a
  gate_rate a false = abort 429

module _ (e : Environment) (r : Request) where
  unfoldable pub rate_limit_by_ip : {A : Type 0} → A → M (Gate A)
  rate_limit_by_ip a = do allowed ← ask e λ k. e.allows k r.client_ip; pure (gate_rate a allowed)

  unfoldable pub rate_limit_by_user : Context → M (Gate Context)
  rate_limit_by_user c = do
    allowed ← ask e λ k. e.allows k (limiter_key r c.user_id)
    pure (gate_rate c allowed)

  -- The handlers of logout and of the current user: AuthMiddleware and CSRFMiddleware. The result has
  -- the token of the CSRF cookie beside the context.
  unfoldable pub protected_route : M (Gate (Context × String))
  protected_route =
      and_next (auth_middleware e r)
        λ c. and_next (csrf_middleware e r) λ token. pure (next (c, token))

  -- The routes of clients, providers, users and sessions.
  unfoldable pub admin_route : M (Gate (Context × String))
  admin_route = and_next (auth_middleware e r) λ c. and_next (admin_middleware e c) λ c.
      and_next (rate_limit_by_user c)
        λ c. and_next (csrf_middleware e r) λ token. pure (next (c, token))
