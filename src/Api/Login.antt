-- ===== src/Api/Login.antt =====
-- internal/transport/http/api/v1/handler/login_handler.go and change_password_handler.go
pub mod Forced
pub mod Changed
use goauth_server.Prelude.{
  ℕ, String, Bool, true, false, Option, none, some, str_eq, cut, if◌then◌else◌,
}
use goauth_server.Model.{Uuid}
use goauth_server.Environment.{Environment}
use goauth_server.Exec.{
  Error, Result, ok, err, M, ◌>>=◌, ◌>>◌, pure, wrap, account_locked, invalid_credentials,
  force_password_change_satisfied, user_not_found,
}
use goauth_server.Http.{Request, Reply, success, failure, or_answer, errors_is}
use goauth_server.Password.{Unicode}
use goauth_server.Auth.Service.{
  Service, expiry, whole_seconds, generate_access_token, store_direct_login_token,
}
use goauth_server.Auth.Revoke.{revoke_all_user_access_tokens}
use goauth_server.Auth.Login.{VerifyCredentialsResult, verify_credentials}
use goauth_server.Auth.ChangePassword.{ChangePasswordResult, change_password}
use goauth_server.Auth.Challenge.{generate_challenge_token, validate_challenge_token}

pub record LoginRequest : Type 0 where
  pub email : String
  pub password : String

-- What the login sends: a challenge token or an access token with its lifetime.
pub data LoginAnswer : Type 0 where
  challenge : String → LoginAnswer
  access : String → ℕ → LoginAnswer

pub record ChangePasswordRequest : Type 0 where
  pub challenge_token : String
  pub new_password : String

abbrev is_account_locked : Error → Bool
is_account_locked (account_locked until) = true
is_account_locked _ = false

abbrev is_invalid_credentials : Error → Bool
is_invalid_credentials invalid_credentials = true
is_invalid_credentials _ = false

abbrev is_satisfied : Error → Bool
is_satisfied force_password_change_satisfied = true
is_satisfied _ = false

abbrev is_user_not_found : Error → Bool
is_user_not_found user_not_found = true
is_user_not_found _ = false

unfoldable pub handle_login_error : {A : Type 0} → Error → Reply A
handle_login_error r =
    if errors_is is_account_locked r
    then failure 429 "account_locked"
    else if errors_is is_invalid_credentials r
    then failure 401 "invalid_credentials"
    else failure 500 "server_error"

unfoldable pub handle_change_error : {A : Type 0} → Error → Reply A
handle_change_error r =
    if errors_is is_satisfied r
    then failure 409 "password_change_already_satisfied"
    else if errors_is is_user_not_found r
    then failure 400 "invalid_challenge_token"
    else failure 400 "invalid_new_password"

-- what stands before the first comma, or all of it
abbrev first_of : String → Option (String × String) → String
first_of s none = s
first_of s (some (front, back)) = front

module _ (e : Environment) where
  unfoldable pub extract_source_ip : Request → String
  extract_source_ip r =
      let forwarded = r.header "X-Forwarded-For" in
      let ip = e.trim_space (first_of forwarded (cut b',' forwarded)) in
      if str_eq forwarded "" then r.remote_addr else if str_eq ip "" then r.remote_addr else ip

  module _ (s : Service) where
    -- the access token of a login is the user's only one
    unfoldable pub answer_access : VerifyCredentialsResult → M (Reply LoginAnswer)
    answer_access v =
        or_answer (generate_access_token e s (e.uuid_string v.user.id) v.user.email)
          (λ r. failure 500 "server_error")
          λ token.
            or_answer (revoke_all_user_access_tokens e v.user.id) (λ r. failure 500 "server_error")
              λ x.
                or_answer (store_direct_login_token e s token v.user.id)
                  (λ r. failure 500 "server_error")
                  λ y. pure (success 200 (access token (whole_seconds (expiry s))))

    unfoldable pub answer_challenge : VerifyCredentialsResult → M (Reply LoginAnswer)
    answer_challenge v =
        or_answer (generate_challenge_token e s v.user.id) (λ r. failure 500 "server_error")
          λ token. pure (success 200 (challenge token))

    unfoldable pub answer_login : VerifyCredentialsResult → M (Reply LoginAnswer)
    answer_login v = if v.force_password_change then answer_challenge v else answer_access v

    unfoldable pub login_handler : Request → Option LoginRequest → M (Reply LoginAnswer)
    login_handler r none = pure (failure 400 "invalid_request")
    login_handler r (some req) =
        if e.valid_address req.email
        then or_answer (verify_credentials e s req.email req.password (extract_source_ip r))
            handle_login_error answer_login
        else pure (failure 400 "invalid_request")

    unfoldable pub answer_changed : Uuid → ChangePasswordResult → M (Reply LoginAnswer)
    answer_changed user_id result =
        or_answer (generate_access_token e s result.user_id result.email)
          (λ r. failure 500 "server_error")
          λ token.
            or_answer (store_direct_login_token e s token user_id) (λ r. failure 500 "server_error")
              λ x. pure (success 200 (access token (whole_seconds (expiry s))))

    unfoldable pub change_password_handler :
        Unicode → Option ChangePasswordRequest → M (Reply LoginAnswer)
    change_password_handler u none = pure (failure 400 "invalid_request")
    change_password_handler u (some req) =
        or_answer (validate_challenge_token e s req.challenge_token)
          (λ r. failure 400 "invalid_challenge_token")
          λ user_id.
            or_answer (change_password e s u user_id req.new_password) handle_change_error
              (answer_changed user_id)
