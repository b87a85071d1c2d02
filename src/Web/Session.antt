-- ===== src/Web/Session.antt =====
-- internal/transport/http/web/handler/session.go
pub mod Signed
use goauth_server.Prelude.{
  ℕ, String, Bool, true, false, Option, none, some, List, cut, str_append, if◌then◌else◌,
}
use goauth_server.Environment.{Environment, OauthSession}
use goauth_server.Exec.{Error, Result, ok, err, failure}
use goauth_server.Auth.Login.{bytes_eq}

module _ (e : Environment) (key : List ℕ) where
  -- json.Marshal does not fail on the fields of a session.
  unfoldable pub encode_session : OauthSession → String
  encode_session s =
      let payload = e.base64_url_encode (e.marshal_session s) in
      str_append payload (str_append "." (e.base64_url_encode (e.hmac_sha256 key payload)))

  abbrev unmarshalled : Option OauthSession → Result OauthSession
  unmarshalled none = err (failure "malformed session payload")
  unmarshalled (some s) = ok s

  abbrev decode_payload : Option (List ℕ) → Result OauthSession
  decode_payload none = err (failure "invalid session payload encoding")
  decode_payload (some bytes) = unmarshalled (e.unmarshal_session bytes)

  abbrev check_signature : String → Option (List ℕ) → Result OauthSession
  check_signature payload none = err (failure "invalid session signature encoding")
  check_signature payload (some signature) =
      if bytes_eq (e.hmac_sha256 key payload) signature
      then decode_payload (e.base64_url_decode payload)
      else err (failure "session cookie signature mismatch")

  abbrev decode_parts : Option (String × String) → Result OauthSession
  decode_parts none = err (failure "malformed session cookie")
  decode_parts (some (payload, signature)) = check_signature payload (e.base64_url_decode signature)

  unfoldable pub decode_session : String → Result OauthSession
  decode_session cookie = decode_parts (cut b'.' cookie)
