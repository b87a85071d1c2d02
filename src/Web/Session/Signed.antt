-- ===== src/Web/Session/Signed.antt =====
-- Sessions that the server has signed.
use goauth_server.Prelude.{
  ℕ, ◌≡◌, refl, String, true, ◌==◌, ==_refl, some, none, List, [], ◌∷◌, cut, str_append, Bool-cases,
  Option-cases, inl, inr, arith,
}
use Prim.Native.Char.{Char, code}
use goauth_server.Environment.{Environment, OauthSession}
use goauth_server.Exec.{ok}
use goauth_server.Auth.Login.{bytes_eq}
use goauth_server.Web.Session.{encode_session, decode_session}

bytes_eq_refl : (b : List ℕ) → bytes_eq b b ≡ true
unfolding bytes_eq
bytes_eq_refl [] = refl
bytes_eq_refl (n ∷ b) = ground (arith, bytes_eq_refl b, ==_refl n)

-- A text without the separator ends where the separator stands.
cut-str_append :
    (sep : ℕ) (s t : String) (c : Char)
    → (code c == sep) ≡ true
    → cut sep s ≡ none
    → cut sep (str_append s (String.◌∷◌ c t)) ≡ some (s, t)
unfolding cut str_append
cut-str_append sep String.[] t c is_sep free = rw is_sep refl
cut-str_append sep (String.◌∷◌ d s) t c is_sep free = elim (Bool-cases (code d == sep)) [
  | inl here ↦ cc (rw here at free)
  | inr not_here ↦ elim (Option-cases (cut sep s)) [
    | inl nothing ↦ rw (not_here, cut-str_append sep s t c is_sep nothing) refl
    | inr (found, it) ↦ cc (rw (not_here, it) at free)
  ]
]

-- What the server relies on: the encodings are undone by the decodings, and the encoding has no dot.
pub record Encodes (e : Environment) (s : OauthSession) : Type 0 where
  pub decodes : (b : List ℕ) → e.base64_url_decode (e.base64_url_encode b) ≡ some b
  pub undotted : (b : List ℕ) → cut b'.' (e.base64_url_encode b) ≡ none
  pub unmarshals : e.unmarshal_session (e.marshal_session s) ≡ some s

-- The session that the login puts into the cookie is the one that the callback reads from it, with
-- the same key.
pub decode-encode_session :
    (e : Environment) (key : List ℕ) (s : OauthSession)
    → Encodes e s
    → decode_session e key (encode_session e key s) ≡ ok s
unfolding encode_session decode_session str_append
decode-encode_session e key s h =
    let payload = e.base64_url_encode (e.marshal_session s) in
    let signature = e.hmac_sha256 key payload in
    rw
      (
        cut-str_append b'.' payload (e.base64_url_encode signature) _ refl
            (h.undotted (e.marshal_session s)),
        h.decodes signature,
        bytes_eq_refl signature,
        h.decodes (e.marshal_session s),
        h.unmarshals,
      )
      refl
