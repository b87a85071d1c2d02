-- ===== src/Tests/Password.antt =====
-- The change of a password, applied: an environment with an encoding that decodes.
use goauth_server.Prelude.{
  ℕ, zero, suc, ◌+◌, ◌≡◌, sym, refl, ap, ◌∙◌, String, false, some, List, [], ◌∷◌, ◌==◌, codes,
  exists, if◌then◌else◌, arith,
}
use Prim.Native.Char.{code}
use mathlib.Core.Option.{some-injective}
use goauth_server.Environment.{Environment}
use goauth_server.Exec.{ok}
use goauth_server.Repository.Users.{
  get_user_by_id, update_password_hash, set_force_password_change, update_user_row,
  set_password_hash, set_force_change,
}
use goauth_server.Repository.RefreshTokens.{revoke_refresh_tokens_by_user}
use goauth_server.Password.{
  validate, classify, classify_all, contains_rune, count_runes, is_denied, contains_email,
}
use goauth_server.Password.Denylist.{denylist}
use goauth_server.Auth.Login.{list_length}
use goauth_server.Auth.ChangePassword.{
  ChangePasswordResult, phc_string, hash_argon2id, store_password, change_password,
}
use goauth_server.Auth.ChangePassword.Stored.{Changed, undivided, change_password_sound}
use goauth_server.Auth.Service.{store_direct_login_token}
use goauth_server.Auth.Challenge.{validate_challenge_token}
use goauth_server.Http.{success, or_answer}
use goauth_server.Api.Login.{ChangePasswordRequest, access, answer_changed, change_password_handler}
use goauth_server.Api.Login.Changed.{Completed, change_access_sound}
use goauth_server.Tests.{counting, service, ascii, start, runs, unary, chars}

-- A number in unary, with an end mark.
abbrev encode_number : ℕ → String → String
encode_number zero rest = String.◌∷◌ "y" rest
encode_number (suc n) rest = String.◌∷◌ "x" (encode_number n rest)

abbrev encode : List ℕ → String
encode [] = ""
encode (n ∷ ns) = encode_number n (encode ns)

abbrev decode : ℕ → String → List ℕ
decode k String.[] = []
decode k (String.◌∷◌ c s) =
    let next = decode zero s in
    let more = decode (suc k) s in if code c == b'y' then k ∷ next else more

decode-encode_number :
    (k n : ℕ) (rest : String) → decode k (encode_number n rest) ≡ (k + n) ∷ decode 0 rest
decode-encode_number k zero rest = ground arith
decode-encode_number k (suc n) rest = ground (arith, decode-encode_number (suc k) n rest)

decode-encode : (b : List ℕ) → decode 0 (encode b) ≡ b
decode-encode [] = refl
decode-encode (n ∷ ns) = ground (arith, decode-encode_number 0 n (encode ns), decode-encode ns)

undivided-encode_number :
    (n : ℕ) (rest : String) → undivided (encode_number n rest) ≡ undivided rest
unfolding exists codes
undivided-encode_number zero rest = refl
undivided-encode_number (suc n) rest = undivided-encode_number n rest

undivided-encode : (b : List ℕ) → undivided (encode b) ≡ false
unfolding exists codes
undivided-encode [] = refl
undivided-encode (n ∷ ns) = undivided-encode_number n (encode ns) ∙ undivided-encode ns

abbrev zeros : ℕ → List ℕ
zeros zero = []
zeros (suc n) = 0 ∷ zeros n

abbrev coding : Environment
coding = record counting {
  base64_encode = encode;
  base64_decode = λ s. some (decode 0 s);
  id_key = λ p salt t m q n. some (zeros 32);
}

abbrev changed : ChangePasswordResult
changed = record { user_id = "xx"; email = "u@example.com" }

change_start : (change_password coding service ascii 2 "Correct-Horse7" start).0 ≡ ok changed
unfolding runs get_user_by_id update_password_hash set_force_password_change update_user_row
    set_password_hash set_force_change revoke_refresh_tokens_by_user validate classify classify_all
    contains_rune count_runes is_denied contains_email denylist phc_string hash_argon2id
    store_password change_password
change_start = refl

change_password_sound_example :
    Changed coding service ascii start.db 2 "Correct-Horse7" changed
      (change_password coding service ascii 2 "Correct-Horse7" start).1
unfolding list_length
change_password_sound_example =
    change_password_sound coding service ascii undivided-encode (λ b. ap some (decode-encode b))
      (λ p salt key h. ap list_length (sym (some-injective _ _ h))) 2 "Correct-Horse7" start changed
      change_start

-- The challenge token names the user 2.
abbrev challenged : Environment
challenged = record coding {
  parse_hs256 = λ n key token. some (record {
    token_type = "password_change";
    subject = "xx";
    expires_at = 100;
    issued_at = 0;
    issuer = "goauth-server";
  });
  parse_uuid = λ s. some (chars s);
}

abbrev request : ChangePasswordRequest
request = record { challenge_token = "t"; new_password = "Correct-Horse7" }

answers :
    (change_password_handler challenged service ascii (some request) start).0
    ≡ ok (success 200 (access (unary 89) 3600))
unfolding runs get_user_by_id update_password_hash set_force_password_change update_user_row
    set_password_hash set_force_change revoke_refresh_tokens_by_user validate classify classify_all
    contains_rune count_runes is_denied contains_email denylist phc_string hash_argon2id
    store_password change_password or_answer validate_challenge_token answer_changed
    change_password_handler store_direct_login_token
answers = refl

change_access_sound_example : Completed challenged service ascii request start
change_access_sound_example =
    change_access_sound challenged service ascii request start 200 3600 (unary 89) answers
