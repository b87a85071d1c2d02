-- ===== src/Tests/Login.antt =====
-- Login and passwords, applied.
use goauth_server.Prelude.{◌≡◌, refl, true, none}
use goauth_server.Exec.{ok}
use goauth_server.Repository.Users.{
  get_user_by_email_for_auth, reset_login_attempts, update_last_login, update_user_row,
  set_attempts_reset, set_last_login,
}
use goauth_server.Auth.Login.{
  VerifyCredentialsResult, set_param, parse_params, hash_fields, list_length, bytes_eq,
  verify_argon2id, check_lockout, record_login, verify_credentials,
}
use goauth_server.Auth.Login.Verified.{LoggedIn, login_sound}
use goauth_server.Tests.{counting, service, start, user2, runs}

abbrev logged_in : VerifyCredentialsResult
logged_in = record {
  user = record user2 {
    failed_login_attempts = 0;
    last_failed_login_at = none;
    last_login_at = 2;
    updated_at = 3;
  };
  force_password_change = true;
}

-- In the environment of the tests, the key of a password of one character is the stored one.
login_start :
    (verify_credentials counting service "u@example.com" "p" "127.0.0.1" start).0 ≡ ok logged_in
unfolding runs get_user_by_email_for_auth reset_login_attempts update_last_login update_user_row
    set_attempts_reset set_last_login set_param parse_params hash_fields list_length bytes_eq
    verify_argon2id check_lockout record_login verify_credentials
login_start = refl

login_sound_example :
    LoggedIn counting service start.db "u@example.com" "p" logged_in
      (verify_credentials counting service "u@example.com" "p" "127.0.0.1" start).1
login_sound_example =
    login_sound counting service "u@example.com" "p" "127.0.0.1" start logged_in login_start
