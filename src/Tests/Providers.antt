-- ===== src/Tests/Providers.antt =====
-- The providers, applied: an environment whose encodings are undone by its decodings.
use goauth_server.Prelude.{
  ℕ, zero, suc, ◌+◌, arith, ◌≡◌, refl, ap, ◌∙◌, subst, String, Bool, true, false, Option, some,
  none, List, [], ◌∷◌, str_eq, cut, if◌then◌else◌, ◌==◌,
}
use Prim.Native.Char.{code}
use goauth_server.Environment.{Environment, OauthSession, Json, text}
use goauth_server.Exec.{ok, World, lift_result}
use goauth_server.Repository.Providers.{
  create_oauth_provider, new_provider, get_oauth_provider_by_client_and_name,
}
use goauth_server.Repository.Pages.{count, take, drop}
use goauth_server.Repository.Codes.{create_authorization_code, new_code}
use goauth_server.Repository.Users.{create_user, new_user, get_user_by_provider_id}
use goauth_server.ProviderService.{
  Providers, ProviderView, ProviderWithSecret, to_oauth_provider, find_provider_by_name, reveal,
  create_provider, get_provider_with_secret, get_provider_with_secret_by_client_and_name,
}
use goauth_server.ProviderService.Validation.{
  CreateProviderDto, UpdateProviderDto, validate_create_provider_dto, validate_update_provider_dto,
}
use goauth_server.ProviderService.Encryption.{encrypt, decrypt}
use goauth_server.ProviderService.Encryption.RoundTrip.{Sealed}
use goauth_server.ProviderService.Secret.{create_provider_sound}
use goauth_server.Auth.Provider.{
  str_field, bool_field, normalize, build_oauth_config, exchange_provider_code, fetch_user_info,
  create_provider_user, upsert_found, upsert_user, find_active_client, issue_code,
  handle_provider_callback,
}
use goauth_server.Tests.{counting, start, provider6, runs}

-- Each number in unary after a `;`.
abbrev spell : ℕ → String → String
spell zero s = s
spell (suc n) s = String.◌∷◌ "x" (spell n s)

abbrev spelled : List ℕ → String
spelled [] = ""
spelled (n ∷ ns) = String.◌∷◌ ";" (spell n (spelled ns))

-- the number that goes on to the left, and those that have ended
abbrev step : Bool → ℕ × List ℕ → ℕ × List ℕ
step true (n, ns) = (0, n ∷ ns)
step false (n, ns) = (suc n, ns)

abbrev reading : String → ℕ × List ℕ
reading String.[] = (0, [])
reading (String.◌∷◌ c s) = step (code c == b';') (reading s)

-- The number is added to what goes on.
abbrev onto : ℕ → ℕ × List ℕ → ℕ × List ℕ
onto n p = (n + p.0, p.1)

step-onto : (n : ℕ) (p : ℕ × List ℕ) → step false (onto n p) ≡ onto (suc n) p
step-onto n (k, ns) = let same : suc (n + k) ≡ suc n + k = omega arith in ap (λ m. (m, ns)) same

reading-spell : (n : ℕ) (s : String) → reading (spell n s) ≡ onto n (reading s)
reading-spell zero s =
    let same : (reading s).0 ≡ 0 + (reading s).0 = omega arith in ap (λ m. (m, (reading s).1)) same
reading-spell (suc n) s = ap (step false) (reading-spell n s) ∙ step-onto n (reading s)

reading-spelled : (ns : List ℕ) → reading (spelled ns) ≡ (0, ns)
reading-spelled [] = refl
reading-spelled (n ∷ ns) =
    let same : n + 0 ≡ n = omega arith in
    ap (step true) (reading-spell n (spelled ns) ∙ ap (onto n) (reading-spelled ns))
    ∙ ap (λ m. (0, m ∷ ns)) same

cut-spell : (n : ℕ) (s : String) → cut b'.' s ≡ none → cut b'.' (spell n s) ≡ none
unfolding cut
cut-spell zero s free = free
cut-spell (suc n) s free = rw (cut-spell n s free) refl

pub undotted : (ns : List ℕ) → cut b'.' (spelled ns) ≡ none
unfolding cut
undotted [] = refl
undotted (n ∷ ns) = rw (cut-spell n (spelled ns) (undotted ns)) refl

abbrev zeros : ℕ → List ℕ
zeros zero = []
zeros (suc n) = 0 ∷ zeros n

abbrev identity : String → Option Json
identity key = if str_eq key "sub" then some (text "s") else some (text "n@example.com")

-- The session that the server has signed.
abbrev pub session : OauthSession
session = record {
  state = "q";
  client_id = "x";
  provider = "idp";
  redirect_uri = "https://app/cb";
  scope = none;
}

abbrev pub sealing : Environment
sealing = record counting {
  base64_url_encode = spelled;
  base64_url_decode = λ s. some (reading s).1;
  random = λ n k. some (zeros k);
  unmarshal_session = λ b. some session;
  get_user_info = λ n token url. some identity;
}

pub decodes : (ns : List ℕ) → sealing.base64_url_decode (sealing.base64_url_encode ns) ≡ some ns
decodes ns = ap (λ p. some p.1) (reading-spelled ns)

abbrev pub providers : Providers
providers = record { encryption_key = zeros 32; env = "production" }

-- What is stored as the secret decodes to 16 bytes.
abbrev pub offered : World
offered = record start {
  db = record start.db {
    providers = record provider6 { provider_client_secret = ";;;;;;;;;;;;;;;;" } ∷ [];
  };
}

abbrev update : UpdateProviderDto
update = record {
  display_name = "Provider";
  provider_client_id = "goauth";
  provider_client_secret = "";
  auth_url = "https://app/cb";
  token_url = "https://app/cb";
  user_info_url = "https://app/cb";
  scopes = "openid" ∷ [];
  is_enabled = true;
}

updates : validate_update_provider_dto sealing "production" update ≡ none
unfolding validate_update_provider_dto
updates = refl

abbrev dto : CreateProviderDto
dto = record {
  name = "new";
  display_name = "New";
  provider_client_id = "goauth";
  provider_client_secret = "secret";
  auth_url = "https://app/cb";
  token_url = "https://app/cb";
  user_info_url = "https://app/cb";
  scopes = "openid" ∷ [];
  is_enabled = true;
}

abbrev bytes_of : Option (List ℕ) → List ℕ
bytes_of none = []
bytes_of (some b) = b

count-zeros : (b : List ℕ) → some (zeros 12) ≡ some b → count b ≡ 12
unfolding count
count-zeros b same = subst (λ o. count (bytes_of o) ≡ 12) same refl

sealed : Sealed sealing providers.encryption_key "secret"
sealed = record { decodes = decodes; opens = λ nonce. refl; fills = λ k b. count-zeros b }

abbrev created : ProviderView
created = record {
  id = 1001;
  client_id = 1;
  name = "new";
  display_name = "New";
  auth_url = "https://app/cb";
  token_url = "https://app/cb";
  user_info_url = "https://app/cb";
  scopes = "openid" ∷ [];
  is_enabled = true;
  created_at = 1;
  updated_at = 1;
}

creates : (create_provider sealing providers 1 dto offered).0 ≡ ok created
unfolding runs create_provider validate_create_provider_dto encrypt create_oauth_provider
    new_provider to_oauth_provider count
creates = refl

create_provider_sound_example :
    (r : ProviderWithSecret) × (((get_provider_with_secret sealing providers 1001
          (create_provider sealing providers 1 dto offered).1).0
        ≡ ok r)
      × ((r.provider ≡ created) × (r.provider_client_secret ≡ "secret")))
create_provider_sound_example =
    create_provider_sound sealing providers 1 dto sealed offered created creates
      (create_provider sealing providers 1 dto offered).1 refl refl

-- The code is of 32 bytes.
issues :
    (handle_provider_callback sealing providers 1 "idp" "c" "https://goauth" "https://app/cb" none
      offered).0
    ≡ ok (spelled (zeros 32))
unfolding runs lift_result str_field bool_field normalize build_oauth_config exchange_provider_code
    fetch_user_info create_provider_user upsert_found upsert_user find_active_client issue_code
    handle_provider_callback get_provider_with_secret_by_client_and_name find_provider_by_name
    reveal decrypt count take drop get_oauth_provider_by_client_and_name create_user new_user
    get_user_by_provider_id create_authorization_code new_code to_oauth_provider
issues = refl
