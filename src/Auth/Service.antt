-- ===== src/Auth/Service.antt =====
-- internal/service/auth/auth.go and token.go, internal/util/hash.go and random.go, and the part of
-- internal/config/config.go that the auth service reads. An `int` and a `time.Duration` are the
-- patterns of their 64 bits, so that a product of durations wraps around.
use goauth_server.Prelude.{
  ℕ, ◌+◌, ◌-◌, ◌*◌, ◌/◌, ◌%◌, ◌^◌, min, String, Bool, Option, none, List, ltb, leb, if◌then◌else◌,
}
use goauth_server.Model.{Uuid, Time}
use goauth_server.Environment.{Environment, Claims}
use goauth_server.Exec.{M, failure, ◌>>=◌, ◌>>◌, pure, lift_option, ask, wrap, map_error}
use goauth_server.Repository.AccessTokens.{create_access_token}

pub record Config : Type 0 where
  pub app_name : String
  -- AccessToken.Expiry, in minutes
  pub access_token_expiry : ℕ
  -- RefreshToken.ExpiryDays
  pub refresh_token_expiry_days : ℕ
  -- Lockout
  pub max_attempts : ℕ
  pub window_seconds : ℕ
  pub duration_seconds : ℕ
  -- Security.SessionSigningKey, in hexadecimal digits
  pub session_signing_key : String

pub record Service : Type 0 where
  pub cfg : Config
  -- auditSvc != nil
  pub audited : Bool

abbrev pub second : ℕ
second = 1000000000

abbrev pub minute : ℕ
minute = 60000000000

abbrev pub hour : ℕ
hour = 3600000000000

-- time.Duration(n) * unit
unfoldable pub duration : ℕ → ℕ → ℕ
duration n unit = (n * unit) % 2 ^ 64

-- t.Add(d)
unfoldable pub add_time : Time → ℕ → Time
add_time t d = if ltb d (2 ^ 63) then t + d else t - (2 ^ 64 - d)

-- t.After(u)
abbrev pub after : Time → Time → Bool
after t u = ltb u t

-- int64(d.Seconds()), rounded towards 0
unfoldable pub whole_seconds : ℕ → ℕ
whole_seconds d = if ltb d (2 ^ 63) then d / second else (2 ^ 64 - (2 ^ 64 - d) / second) % 2 ^ 64

-- t.Sub(u), which stops at the largest and the smallest duration
unfoldable pub sub_time : Time → Time → ℕ
sub_time t u = if leb u t then min (t - u) (2 ^ 63 - 1) else 2 ^ 64 - min (u - t) (2 ^ 63)

-- a <= b on signed 64-bit integers
unfoldable pub signed_leb : ℕ → ℕ → Bool
signed_leb a b = leb ((a + 2 ^ 63) % 2 ^ 64) ((b + 2 ^ 63) % 2 ^ 64)

-- Expiry()
unfoldable pub expiry : Service → ℕ
unfolding duration
expiry s = duration s.cfg.access_token_expiry minute

pub record TokenResponse : Type 0 where
  pub access_token : String
  pub token_type : String
  pub expires_in : ℕ
  pub scope : Option String
  pub refresh_token : String

module _ (e : Environment) where
  unfoldable pub sha256_hex : String → String
  sha256_hex s = e.hex_encode (e.sha256_sum s)

  -- time.Now()
  unfoldable pub time_now : M Time
  time_now = ask e e.time

  -- uuid.New()
  unfoldable pub new_uuid : M Uuid
  new_uuid = ask e e.uuid

  unfoldable pub generate_random_bytes : ℕ → M (List ℕ)
  generate_random_bytes n = do
    b ← ask e (λ k. e.random k n)
    lift_option (failure "reading random bytes") b

  unfoldable pub generate_secure_token : ℕ → M String
  unfolding generate_random_bytes
  generate_secure_token n = do b ← generate_random_bytes n; pure (e.base64_url_encode b)

  module _ (s : Service) where
    unfoldable pub generate_access_token : String → String → M String
    unfolding time_now
    generate_access_token user_id email = do
      now ← time_now
      signed ← ask e λ k. e.sign_es256 k (record {
        user_id = user_id;
        email = email;
        expires_at = add_time now (expiry s);
        issued_at = now;
        not_before = now;
        issuer = s.cfg.app_name;
      })
      lift_option (failure "signing") signed

    unfoldable pub store_direct_login_token : String → Uuid → M (Unit {0})
    unfolding time_now
    store_direct_login_token token user = do
      now ← time_now
      map_error (wrap "storing direct login token") (
          create_access_token e (record {
            token_hash = sha256_hex token;
            client_id = none;
            user_id = user;
            scope = none;
            expires_at = add_time now (expiry s);
          }))
      pure tt

  -- The signature, the expiry and the method are checked by the parser.
  unfoldable pub validate_access_token : String → M Claims
  validate_access_token token = do
    claims ← ask e (λ k. e.parse_es256 k token)
    lift_option (failure "invalid token") claims
