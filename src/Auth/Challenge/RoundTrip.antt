-- ===== src/Auth/Challenge/RoundTrip.antt =====
-- A challenge token names the user that it was made for.
use goauth_server.Prelude.{◌≡◌, refl, String, some, List, ℕ}
use goauth_server.Model.{Uuid}
use goauth_server.Environment.{Environment, ChallengeClaims}
use goauth_server.Exec.{ok, World, ◌>>=◌, guard, lift_option, ask, pure}
use goauth_server.Exec.Hoare.{Triple, Triple-lift_option, Triple-at}
use goauth_server.Exec.Facts.{Any, after_option, after_unknown}
use goauth_server.Auth.Service.{Service}
use goauth_server.Auth.Challenge.{
  challenge_token_type, generate_challenge_token, validate_challenge_token,
}

-- The token is signed with the server's key, and its claims are of the type and the user.
record Names (e : Environment) (s : Service) (user : Uuid) (token : String) : Type 0 where
  key : List ℕ
  decoded : e.hex_decode s.cfg.session_signing_key ≡ some key
  claims : ChallengeClaims
  signed : e.sign_hs256 key claims ≡ some token
  typed : claims.token_type ≡ challenge_token_type
  subject : claims.subject ≡ e.uuid_string user

-- What the server relies on: until it expires, a signed token is read with the same key as it was
-- written, and so is the text of a UUID.
pub record Reads (e : Environment) (k : ℕ) (user : Uuid) : Type 0 where
  pub verifies :
      (key : List ℕ) (claims : ChallengeClaims) (token : String)
      → e.sign_hs256 key claims ≡ some token
      → e.parse_hs256 k key token ≡ some claims
  pub parses : e.parse_uuid (e.uuid_string user) ≡ some user

module _ (e : Environment) (s : Service) (user : Uuid) where
  generate_challenge_token-Names :
      Triple
        (λ w. Unit {0})
        (generate_challenge_token e s user)
        (λ token w. Names e s user token)
        Any
  unfolding generate_challenge_token
  generate_challenge_token-Names = after_option _ _ _ λ key decoded. after_unknown _ _ λ now.
      Triple-lift_option _ _
        (λ token w signed u. record {
          key = key;
          decoded = decoded;
          claims = _;
          signed = signed;
          typed = refl;
          subject = refl;
        })
        (λ w u. tt)

-- A challenge token that was made for a user is accepted as that user's, at every time when it is still
-- valid, in whatever state the database then is.
pub validate-generate_challenge_token :
    (e : Environment) (s : Service) (user : Uuid) (w : World) (token : String)
    → (generate_challenge_token e s user w).0 ≡ ok token
    → (w' : World) → Reads e w'.tick user
    → (validate_challenge_token e s token w').0 ≡ ok user
unfolding validate_challenge_token ◌>>=◌ lift_option ask guard pure
validate-generate_challenge_token e s user w token made w' reads =
    let names = Triple-at (generate_challenge_token-Names e s user) w token tt made in
    rw
      (
        names.decoded,
        reads.verifies names.key names.claims token names.signed,
        names.typed,
        names.subject,
        reads.parses,
      )
      refl
