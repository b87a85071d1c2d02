-- ===== src/Middleware/Auth.antt =====
-- internal/middleware/auth.go and admin.go
pub mod Passed
use Prim.Native.Char.{Char, code}
use goauth_server.Prelude.{
  ℕ, ◌+◌, String, Bool, true, false, ◌&&◌, ◌==◌, leb, Option, none, some, str_eq, if◌then◌else◌,
}
use goauth_server.Environment.{Environment, Claims}
use goauth_server.Exec.{Result, ok, err, M, pure, ◌>>=◌}
use goauth_server.Http.{Request, Context, Gate, next, abort, or_answer}
use goauth_server.Auth.Service.{validate_access_token}
use goauth_server.Auth.Revoke.{is_token_revoked}
use goauth_server.UserService.{is_admin}

-- the lower case of an ASCII letter
abbrev lower : ℕ → ℕ
lower c = if leb b'A' c && leb c b'Z' then c + 32 else c

-- What follows a prefix that is compared without regard to case. (A code point that is not ASCII folds to no letter of
-- the prefix below.)
unfoldable pub strip_prefix_fold : String → String → Option String
strip_prefix_fold String.[] s = some s
strip_prefix_fold (String.◌∷◌ p ps) String.[] = none
strip_prefix_fold (String.◌∷◌ p ps) (String.◌∷◌ c s) =
    let rest = strip_prefix_fold ps s in if code p == lower (code c) then rest else none

abbrev non_empty : Option String → Option String
non_empty none = none
non_empty (some s) = if str_eq s "" then none else some s

-- the token of the header, or of the cookie where there is no header
unfoldable pub bearer_token : Request → Option String
bearer_token r =
    if str_eq (r.header "Authorization") ""
    then r.cookie "access_token"
    else non_empty (strip_prefix_fold "bearer " (r.header "Authorization"))

module _ (e : Environment) where
  abbrev pub check_revoked : String → Claims → Bool → M (Gate Context)
  check_revoked token claims true = pure (abort 401)
  check_revoked token claims false = pure (
      next (record {
        raw_token = some token;
        user_id = some claims.user_id;
        email = some claims.email;
      }))

  unfoldable pub check_token : Option String → M (Gate Context)
  check_token none = pure (abort 401)
  check_token (some token) =
      or_answer (validate_access_token e token) (λ r. abort 401)
        λ claims.
          or_answer (is_token_revoked e token) (λ r. abort 500)
            λ revoked. check_revoked token claims revoked

  unfoldable pub auth_middleware : Request → M (Gate Context)
  auth_middleware r = check_token (bearer_token r)

  abbrev pub check_admin : Context → Bool → M (Gate Context)
  check_admin c true = pure (next c)
  check_admin c false = pure (abort 403)

  abbrev pub with_uuid : Context → Option ℕ → M (Gate Context)
  with_uuid c none = pure (abort 401)
  with_uuid c (some id) = or_answer (is_admin e id) (λ r. abort 500) (check_admin c)

  abbrev pub with_user_id : Context → Option String → M (Gate Context)
  with_user_id c none = pure (abort 401)
  with_user_id c (some raw) = with_uuid c (e.parse_uuid raw)

  unfoldable pub admin_middleware : Context → M (Gate Context)
  admin_middleware c = with_user_id c c.user_id
