-- ===== src/Environment.antt =====
-- What the program does not implement: the database server's faults, the clock, random bytes, UUIDs,
-- digests, signatures and encodings. The n-th question that is put to the environment gets the
-- n-th answer; a statement may fail at any time, and nothing is assumed of the clock.
use goauth_server.Prelude.{ℕ, String, Bool, Option, List}
use goauth_server.Model.{Uuid, Time}

-- internal/service/auth/auth.go, `Claims`
pub record Claims : Type 0 where
  pub user_id : String
  pub email : String
  pub expires_at : Time
  pub issued_at : Time
  pub not_before : Time
  pub issuer : String

-- internal/service/auth/token.go, `challengeClaims`
pub record ChallengeClaims : Type 0 where
  pub token_type : String
  pub subject : String
  pub expires_at : Time
  pub issued_at : Time
  pub issuer : String

-- what the program uses of a net/url.URL
pub record Url : Type 0 where
  pub scheme : String
  pub host : String
  -- Hostname()
  pub hostname : String

-- internal/transport/http/web/handler/session.go, `oauthSession`
pub record OauthSession : Type 0 where
  pub state : String
  pub client_id : String
  pub provider : String
  pub redirect_uri : String
  pub scope : Option String

-- what is asked of an oauth2.Config
pub record OauthConfig : Type 0 where
  pub client_id : String
  pub client_secret : String
  pub redirect_url : String
  pub scopes : List String
  pub auth_url : String
  pub token_url : String

-- a value of a decoded JSON object, as far as it is looked at
pub data Json : Type 0 where
  text : String → Json
  flag : Bool → Json
  other : Json

pub record Environment : Type 0 where
  -- the n-th statement ends with an error of the server or of the connection
  pub fails : ℕ → Bool
  -- time.Now() and SQL's now()
  pub time : ℕ → Time
  -- uuid.New() and gen_random_uuid()
  pub uuid : ℕ → Uuid
  -- Allow() of the rate limiter that stands under a key
  pub allows : ℕ → String → Bool
  -- rand.Read of so many bytes, `none` on an error
  pub random : ℕ → ℕ → Option (List ℕ)
  pub sha256_sum : String → List ℕ
  pub hex_encode : List ℕ → String
  pub base64_url_encode : List ℕ → String
  pub parse_uuid : String → Option Uuid
  pub uuid_string : Uuid → String
  -- Format(time.RFC3339)
  pub format_time : Time → String
  -- SignedString with ES256, which is randomised, `none` on an error
  pub sign_es256 : ℕ → Claims → Option String
  -- ParseWithClaims with the ES256 public key: signature, expiry and not-before are checked
  pub parse_es256 : ℕ → String → Option Claims
  -- RawStdEncoding
  pub base64_encode : List ℕ → String
  pub base64_decode : String → Option (List ℕ)
  -- argon2.IDKey of a password and a salt, with the time, memory, threads and key length; `none` is
  -- its panic on a time or a number of threads of 0
  pub id_key : String → List ℕ → ℕ → ℕ → ℕ → ℕ → Option (List ℕ)
  -- the bytes of a text
  pub utf8 : String → List ℕ
  pub hex_decode : String → Option (List ℕ)
  -- RawURLEncoding
  pub base64_url_decode : String → Option (List ℕ)
  -- strings.TrimSpace
  pub trim_space : String → String
  -- url.ParseRequestURI
  pub parse_request_uri : String → Option Url
  -- the order of texts in the database
  pub collates : String → String → Bool
  -- mail.ParseAddress accepts the text
  pub valid_address : String → Bool
  -- %q of a text
  pub quote : String → String
  -- strconv.Atoi, the pattern of the 64-bit integer
  pub atoi : String → Option ℕ
  -- strconv.ParseBool
  pub parse_bool : String → Option Bool
  -- AES-256-GCM: Seal and Open with a key and a nonce, `none` where the text is not authentic
  pub gcm_seal : List ℕ → List ℕ → String → List ℕ
  pub gcm_open : List ℕ → List ℕ → List ℕ → Option String
  -- HMAC-SHA256 with a key
  pub hmac_sha256 : List ℕ → String → List ℕ
  -- json.Marshal and json.Unmarshal of the session
  pub marshal_session : OauthSession → List ℕ
  pub unmarshal_session : List ℕ → Option OauthSession
  -- SignedString and ParseWithClaims with HS256 and a key; the expiry is checked
  pub sign_hs256 : List ℕ → ChallengeClaims → Option String
  pub parse_hs256 : ℕ → List ℕ → String → Option ChallengeClaims
  -- AuthCodeURL with a state, for offline access
  pub auth_code_url : OauthConfig → String → String
  -- Exchange of a code for the provider's access token, `none` on an error
  pub exchange_code : ℕ → OauthConfig → String → Option String
  -- a GET with a bearer token, and the JSON object of an answer of status 200, `none` on an error
  pub get_user_info : ℕ → String → String → Option (String → Option Json)
  -- url.Parse, and the URL with its query parameter `code` set
  pub with_code : String → String → Option String
