-- ===== src/Tests/Web.antt =====
-- The handlers of logins, revocations and the callback of a provider, applied.
use goauth_server.Prelude.{
  Bool, String, Bool-cases, inl, inr, sym, eq_iff, ==_iff, ◌&&◌, ◌==◌, ◌≡◌, refl, true, false, some,
  none, [], ◌∷◌, str_eq, if◌then◌else◌,
}
use goauth_server.Environment.{Environment, ChallengeClaims}
use goauth_server.Auth.Challenge.{generate_challenge_token}
use goauth_server.Auth.Challenge.RoundTrip.{Reads}
use goauth_server.Exec.{ok, World, lift_result}
use goauth_server.Http.{success, Request, or_answer}
use goauth_server.Repository.Users.{
  get_user_by_email_for_auth, reset_login_attempts, update_last_login, update_user_row,
  set_attempts_reset, set_last_login, create_user, new_user, get_user_by_provider_id,
}
use goauth_server.Repository.AccessTokens.{revoke_access_tokens_by_user, set_revoked}
use goauth_server.Repository.Pages.{count, take, drop}
use goauth_server.Repository.Codes.{create_authorization_code, new_code}
use goauth_server.Repository.Providers.{get_oauth_provider_by_client_and_name}
use goauth_server.Auth.Service.{store_direct_login_token}
use goauth_server.Auth.Login.{
  set_param, parse_params, hash_fields, list_length, bytes_eq, verify_argon2id, check_lockout,
  record_login, verify_credentials,
}
use goauth_server.Auth.Revoke.{revoke_all_user_access_tokens}
use goauth_server.Auth.Provider.{
  str_field, bool_field, normalize, build_oauth_config, exchange_provider_code, fetch_user_info,
  create_provider_user, upsert_found, upsert_user, find_active_client, issue_code,
  handle_provider_callback,
}
use goauth_server.ProviderService.{
  get_provider_with_secret_by_client_and_name, find_provider_by_name, reveal, to_oauth_provider,
}
use goauth_server.ProviderService.Encryption.{decrypt}
use goauth_server.Api.Login.{
  LoginRequest, access, extract_source_ip, answer_challenge, answer_access, answer_login,
  login_handler,
}
use goauth_server.Api.Login.Forced.{Admitted, login_access_sound}
use goauth_server.Web.{WebConfig, build_callback_url, finish, callback_page}
use goauth_server.Web.Session.{encode_session, decode_session}
use goauth_server.Web.Session.Signed.{Encodes, decode-encode_session}
use goauth_server.Tests.{counting, service, start, user2, runs, unary}
use goauth_server.Tests.Middleware.{post}
use goauth_server.Tests.Providers.{sealing, session, providers, offered, decodes, undotted}

abbrev unforced : World
unforced = record start {
  db = record start.db { users = record user2 { force_password_change = false } ∷ [] };
}

abbrev credentials : LoginRequest
credentials = record { email = "u@example.com"; password = "p" }

logs_in :
    (login_handler counting service post (some credentials) unforced).0
    ≡ ok (success 200 (access (unary 85) 3600))
unfolding runs get_user_by_email_for_auth reset_login_attempts update_last_login update_user_row
    set_attempts_reset set_last_login set_param parse_params hash_fields list_length bytes_eq
    verify_argon2id check_lockout record_login verify_credentials or_answer extract_source_ip
    answer_challenge answer_access answer_login login_handler revoke_all_user_access_tokens
    revoke_access_tokens_by_user set_revoked store_direct_login_token
logs_in = refl

login_access_sound_example :
    Admitted counting service unforced credentials (extract_source_ip counting post)
login_access_sound_example =
    login_access_sound counting service post credentials unforced 200 3600 (unary 85) logs_in

abbrev revoking : Request
revoking = record post { form = λ name. if str_eq name "token" then "x" else "refresh_token" }

encodes : Encodes sealing session
encodes = record { decodes = decodes; undotted = undotted; unmarshals = refl }

decode-encode_session_example :
    decode_session sealing (7 ∷ []) (encode_session sealing (7 ∷ []) session) ≡ ok session
decode-encode_session_example = decode-encode_session sealing (7 ∷ []) session encodes

abbrev config : WebConfig
config = record { scheme = "https"; host_name = "goauth"; port = "443"; signing_key = 7 ∷ [] }

abbrev returning : Request
returning = record post {
  method = "GET";
  cookie = λ name. some (encode_session sealing (7 ∷ []) session);
  param = λ name. if str_eq name "client_id" then "c1" else "idp";
  query = λ name. if str_eq name "error" then none else some "q";
}

redirects :
    (callback_page sealing config providers returning offered).0 ≡ ok (success 302 "https://app/cb")
unfolding runs lift_result or_answer str_field bool_field normalize build_oauth_config
    exchange_provider_code fetch_user_info create_provider_user upsert_found upsert_user
    find_active_client issue_code handle_provider_callback
    get_provider_with_secret_by_client_and_name find_provider_by_name reveal decrypt count take drop
    get_oauth_provider_by_client_and_name create_user new_user get_user_by_provider_id
    create_authorization_code new_code to_oauth_provider encode_session decode_session bytes_eq
    build_callback_url finish callback_page
redirects = refl

-- The claims of the user's challenge, made at time 0.
abbrev claimed : ChallengeClaims
claimed = record {
  token_type = "password_change";
  subject = "x";
  expires_at = 900000000000;
  issued_at = 0;
  issuer = "goauth-server";
}

abbrev is_claimed : ChallengeClaims → Bool
is_claimed c =
    str_eq c.token_type "password_change"
    && (str_eq c.subject "x"
        && (c.expires_at == 900000000000 && (c.issued_at == 0 && str_eq c.issuer "goauth-server")))

-- It signs nothing else.
abbrev signing : Environment
signing = record counting {
  sign_hs256 = λ key c. if is_claimed c then some "t" else none;
  parse_hs256 = λ k key token. some claimed;
  parse_uuid = λ s. if str_eq s "x" then some 1 else none;
}

both : (a b : Bool) → (a && b) ≡ true → (a ≡ true) × (b ≡ true)
both true b h = (refl, h)
both false b h = cc

claimed_only : (c : ChallengeClaims) → is_claimed c ≡ true → some claimed ≡ some c
claimed_only c h =
    let (typed, h1) = both _ _ h in
    let (subject, h2) = both _ _ h1 in
    let (expires, h3) = both _ _ h2 in
    let (issued, issuer) = both _ _ h3 in
    rw
      (
        sym ((eq_iff c.token_type "password_change").0 typed),
        sym ((eq_iff c.subject "x").0 subject),
        sym ((==_iff c.expires_at 900000000000).0 expires),
        sym ((==_iff c.issued_at 0).0 issued),
        sym ((eq_iff c.issuer "goauth-server").0 issuer),
      )
      refl

verified :
    (c : ChallengeClaims) (token : String)
    → (if is_claimed c then some "t" else none) ≡ some token
    → some claimed ≡ some c
verified c token signed = elim (Bool-cases (is_claimed c)) [
  | inl claims ↦ claimed_only c claims
  | inr other ↦ cc (rw other at signed)
]

reads : Reads signing 0 1
reads = record { verifies = λ key c token. verified c token; parses = refl }

challenges : (generate_challenge_token signing service 1 start).0 ≡ ok "t"
unfolding runs generate_challenge_token
challenges = refl
