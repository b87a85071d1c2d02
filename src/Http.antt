-- ===== src/Http.antt =====
-- What the handlers and the middleware see of a request (gin.Context), and what they answer. Logging,
-- metrics and headers of the answer are left out, except where a definition names them.
pub mod Answers
use goauth_server.Prelude.{ℕ, String, Bool, true, false, Option, none, some, if◌then◌else◌}
use goauth_server.Exec.{Error, Result, ok, err, M, ◌>>=◌, pure, attempt, wrap}

pub record Request : Type 0 where
  -- c.Request.Method
  pub method : String
  -- c.GetHeader, "" where there is none
  pub header : String → String
  -- c.Cookie
  pub cookie : String → Option String
  -- c.Param
  pub param : String → String
  -- the value of a query parameter that is present
  pub query : String → Option String
  -- c.Request.FormValue, and whether the form can be parsed
  pub form : String → String
  pub form_parses : Bool
  -- c.Request.BasicAuth()
  pub basic_auth : Option (String × String)
  -- c.Request.RemoteAddr
  pub remote_addr : String
  -- c.ClientIP()
  pub client_ip : String

-- The keys that AuthMiddleware sets in the context.
pub record Context : Type 0 where
  pub raw_token : Option String
  pub user_id : Option String
  pub email : Option String

-- What a middleware does: `c.Next()`, or an answer with the status and `c.Abort()`.
pub data Gate (A : Type 0) : Type 0 where
  next : A → Gate A
  abort : ℕ → Gate A

-- The answer of a handler: the status with what it sends, or with the text of "error".
pub data Reply (A : Type 0) : Type 0 where
  success : ℕ → A → Reply A
  failure : ℕ → String → Reply A

module _ {A B : Type 0} where
  abbrev pub answer : (Error → B) → (A → M B) → Result A → M B
  answer g f (ok a) = f a
  answer g f (err r) = pure (g r)

  -- `x, err := ...; if err != nil { <answer>; return }`
  unfoldable pub or_answer : M A → (Error → B) → (A → M B) → M B
  or_answer m g f = attempt m >>= answer g f

module _ {A B : Type 0} where
  abbrev pub go_on : Gate A → (A → M (Gate B)) → M (Gate B)
  go_on (next a) f = f a
  go_on (abort n) f = pure (abort n)

  -- the next middleware of a chain, after one that has not aborted
  unfoldable pub and_next : M (Gate A) → (A → M (Gate B)) → M (Gate B)
  and_next m f = do g ← m; go_on g f

-- errors.Is(err, <sentinel>), for a test that recognises the sentinel
abbrev pub errors_is : (Error → Bool) → Error → Bool
errors_is p (wrap message e) = errors_is p e
errors_is p e = p e
