-- ===== src/Auth/Challenge.antt =====
-- internal/service/auth/token.go: the challenge tokens, which stand between the login of a user that
-- must change the password and the change.
pub mod RoundTrip
use goauth_server.Prelude.{◌*◌, String, str_eq}
use goauth_server.Model.{Uuid}
use goauth_server.Environment.{Environment}
use goauth_server.Exec.{M, failure, ◌>>=◌, ◌>>◌, guard, lift_option, ask}
use goauth_server.Auth.Service.{Service, time_now, add_time, minute}

abbrev pub challenge_token_type : String
challenge_token_type = "password_change"

module _ (e : Environment) (s : Service) where
  unfoldable pub generate_challenge_token : Uuid → M String
  generate_challenge_token user_id = do
    key ←
        lift_option (failure "decode session signing key") (e.hex_decode s.cfg.session_signing_key)
    now ← time_now e
    lift_option (failure "signing") (
        e.sign_hs256 key (record {
          token_type = challenge_token_type;
          subject = e.uuid_string user_id;
          expires_at = add_time now (15 * minute);
          issued_at = now;
          issuer = s.cfg.app_name;
        }))

  unfoldable pub validate_challenge_token : String → M Uuid
  validate_challenge_token token = do
    key ←
        lift_option (failure "decode session signing key") (e.hex_decode s.cfg.session_signing_key)
    parsed ← ask e λ k. e.parse_hs256 k key token
    claims ← lift_option (failure "invalid challenge token") parsed
    guard (str_eq claims.token_type challenge_token_type) (failure "challenge token has wrong type")
    lift_option (failure "challenge token subject is not a valid UUID")
        (e.parse_uuid claims.subject)
