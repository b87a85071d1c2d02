-- ===== src/Middleware/Csrf.antt =====
-- internal/middleware/csrf.go
pub mod Compare
pub mod Passed
use Prim.Native.Nat.{bit_or, bit_xor}
use goauth_server.Prelude.{
  ℕ, suc, String, Bool, true, false, not, ◌||◌, ◌==◌, Option, none, some, List, [], ◌∷◌, str_eq,
  if◌then◌else◌,
}
use goauth_server.Environment.{Environment}
use goauth_server.Exec.{Result, ok, err, M, pure, ◌>>=◌}
use goauth_server.Http.{Request, Gate, next, abort, or_answer}
use goauth_server.Auth.Service.{generate_random_bytes}

-- len
unfoldable pub byte_length : List ℕ → ℕ
byte_length [] = 0
byte_length (b ∷ bs) = suc (byte_length bs)

-- the loop over two arrays of one length: `diff |= a[i] ^ b[i]`
unfoldable pub differences : List ℕ → List ℕ → ℕ → ℕ
differences (a ∷ as_) (b ∷ bs) diff = differences as_ bs (bit_or diff (bit_xor a b))
differences _ _ diff = diff

unfoldable pub secure_compare : List ℕ → List ℕ → Bool
unfolding byte_length differences
secure_compare a b = if byte_length a == byte_length b then differences a b 0 == 0 else false

-- the methods of the switch
unfoldable pub changes_state : String → Bool
changes_state m = str_eq m "POST" || str_eq m "PUT" || str_eq m "PATCH" || str_eq m "DELETE"

module _ (e : Environment) where
  unfoldable pub generate_csrf_token : M String
  generate_csrf_token = do b ← generate_random_bytes e 32; pure (e.hex_encode b)

  -- the test of a request, against the token that the cookie has
  unfoldable pub verify_csrf : Request → String → Bool
  unfolding changes_state secure_compare
  verify_csrf r cookie_token =
      if changes_state r.method
      then not (
          str_eq (r.header "X-CSRF-Token") ""
          || not (secure_compare (e.utf8 (r.header "X-CSRF-Token")) (e.utf8 cookie_token)))
      else true

  -- the value is the cookie that is set
  unfoldable pub gate_csrf : Request → String → Gate String
  unfolding verify_csrf
  gate_csrf r token = if verify_csrf r token then next token else abort 403

  -- there is no cookie, or an empty one
  unfoldable pub new_cookie : Request → M (Gate String)
  new_cookie r = or_answer generate_csrf_token (λ x. abort 500) λ token. pure (gate_csrf r token)

  abbrev pub with_cookie : Request → Option String → M (Gate String)
  with_cookie r none = new_cookie r
  with_cookie r (some token) = if str_eq token "" then new_cookie r else pure (gate_csrf r token)

  unfoldable pub csrf_middleware : Request → M (Gate String)
  csrf_middleware r = with_cookie r (r.cookie "csrf_token")
