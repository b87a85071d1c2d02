-- ===== src/Api/Revoke.antt =====
-- internal/transport/http/api/v1/handler/revoke_handler.go
pub mod Answered
use goauth_server.Prelude.{ℕ, String, Bool, true, false, Option, none, some, str_eq, if◌then◌else◌}
use goauth_server.Environment.{Environment, Claims}
use goauth_server.Exec.{Result, ok, err, M, ◌>>=◌, ◌>>◌, pure, ignore, attempt}
use goauth_server.Http.{Request, or_answer}
use goauth_server.Auth.Service.{Service, validate_access_token}
use goauth_server.Auth.Revoke.{revoke_any_token, is_token_revoked, validate_client_credentials}

-- what follows a prefix, as it is written
unfoldable pub strip_prefix : String → String → Option String
strip_prefix String.[] s = some s
strip_prefix (String.◌∷◌ p ps) String.[] = none
strip_prefix (String.◌∷◌ p ps) (String.◌∷◌ c s) =
    let rest = strip_prefix ps s in
    if str_eq (String.◌∷◌ p String.[]) (String.◌∷◌ c String.[]) then rest else none

abbrev or_none : Option String → String
or_none none = ""
or_none (some s) = s

-- "" where there is no bearer token
unfoldable pub extract_bearer_token : Request → String
extract_bearer_token r = or_none (strip_prefix "Bearer " (r.header "Authorization"))

module _ (e : Environment) where
  abbrev pub authenticate_bearer : String → M Bool
  authenticate_bearer token =
      if str_eq token ""
      then pure false
      else or_answer (validate_access_token e token) (λ r. false)
          λ claims.
            or_answer (is_token_revoked e token) (λ r. false)
              λ revoked. pure (if revoked then false else true)

  abbrev pub authenticate_caller : Request → Option (String × String) → M Bool
  authenticate_caller r (some (client_id, client_secret)) =
      or_answer (validate_client_credentials e client_id client_secret) (λ x. false)
        λ valid. pure valid
  authenticate_caller r none = authenticate_bearer (extract_bearer_token r)

  unfoldable pub authenticate_revoke_request : Request → M Bool
  authenticate_revoke_request r = authenticate_caller r r.basic_auth

  module _ (s : Service) where
    abbrev pub revoke_form : Request → M ℕ
    revoke_form r =
        if r.form_parses
        then if str_eq (r.form "token") ""
          then pure 200
          else ignore (revoke_any_token e s (r.form "token") (r.form "token_type_hint")) >> pure 200
        else pure 200

    abbrev pub revoke_as : Request → Bool → M ℕ
    revoke_as r false = pure 401
    revoke_as r true = revoke_form r

    -- The answer is a status alone.
    unfoldable pub revoke_handler : Request → M ℕ
    revoke_handler r = do authenticated ← authenticate_revoke_request r; revoke_as r authenticated
