-- ===== src/Auth/Login.antt =====
-- internal/service/auth/login.go
pub mod Recorded
pub mod Verified
pub mod Counted
pub mod Locked
use goauth_server.Prelude.{
  ℕ, suc, ◌%◌, ◌^◌, String, Bool, true, false, not, ◌&&◌, Option, none, some, List, [], ◌∷◌, ◌==◌,
  str_eq, split, cut, parse_uint32, if◌then◌else◌,
}
use goauth_server.Model.{Uuid, Time, User}
use goauth_server.Environment.{Environment}
use goauth_server.Exec.{
  M, Result, ok, err, invalid_credentials, account_locked, failure, wrap, ◌>>=◌, ◌>>◌, pure, raise,
  map_error, guard, lift_option, lift_result, not_found_as,
}
use goauth_server.Repository.Users.{
  get_user_by_email_for_auth, reset_login_attempts, increment_failed_login_attempts,
  lock_user_account, update_last_login,
}
use goauth_server.Repository.Audit.{
  EventType, AuditEntry, login_failed, account_locked as locked_event, audit,
}
use goauth_server.Auth.Service.{
  Service, duration, add_time, sub_time, signed_leb, after, second, time_now,
}

pub record VerifyCredentialsResult : Type 0 where
  pub user : User
  pub force_password_change : Bool

-- The Argon2 parameters m, t and p of a stored hash.
pub record HashParams : Type 0 where
  pub memory : ℕ
  pub iterations : ℕ
  pub parallelism : ℕ

-- the switch on the name of a parameter; unknown names are passed over
unfoldable pub set_param : String → ℕ → HashParams → HashParams
set_param name v p =
    if str_eq name "m"
    then record p { memory = v }
    else if str_eq name "t"
    then record p { iterations = v }
    else if str_eq name "p"
    then record p { parallelism = v % 256 }
    else p

abbrev add_param : Option ℕ → String → HashParams → Result HashParams
add_param none name p = err (failure "parsing hash parameter")
add_param (some v) name p = ok (set_param name v p)

abbrev parse_segment : Option (String × String) → HashParams → Result HashParams
parse_segment none p = err (failure "malformed hash parameter segment")
parse_segment (some (name, value)) p = add_param (parse_uint32 value) name p

-- the loop over the segments
unfoldable pub parse_params : List String → HashParams → Result HashParams
parse_params [] p = ok p
parse_params (kv ∷ kvs) p = elim (parse_segment (cut b'=' kv) p) [
  | ok q ↦ parse_params kvs q
  | err r ↦ err r
]

abbrev pub no_params : HashParams
no_params = record { memory = 0; iterations = 0; parallelism = 0 }

-- The parts 3, 4 and 5 of the six that `$` separates, if part 1 is "argon2id".
unfoldable pub hash_fields : List String → Option (String × String × String)
hash_fields (p0 ∷ p1 ∷ p2 ∷ p3 ∷ p4 ∷ p5 ∷ []) =
    if str_eq p1 "argon2id" then some (p3, p4, p5) else none
hash_fields _ = none

unfoldable pub list_length : List ℕ → ℕ
list_length [] = 0
list_length (x ∷ xs) = suc (list_length xs)

-- ConstantTimeCompare on bytes
unfoldable pub bytes_eq : List ℕ → List ℕ → Bool
bytes_eq [] [] = true
bytes_eq (x ∷ xs) (y ∷ ys) = x == y && bytes_eq xs ys
bytes_eq _ _ = false

module _ (e : Environment) where
  unfoldable pub verify_argon2id : String → String → M Bool
  verify_argon2id password encoded = do
    (params, salt64, hash64) ←
        lift_option (failure "unsupported password hash format") (hash_fields (split b'$' encoded))
    p ← lift_result (parse_params (split b',' params) no_params)
    salt ← lift_option (failure "decoding hash salt") (e.base64_decode salt64)
    stored ← lift_option (failure "decoding stored argon2id hash") (e.base64_decode hash64)
    computed ←
        lift_option (failure "panic: argon2")
          (e.id_key password salt p.iterations p.memory p.parallelism (list_length stored % 2 ^ 32))
    pure (bytes_eq computed stored)

  module _ (s : Service) where
    -- an entry of the login about a user
    abbrev login_entry : EventType → Uuid → String → String → AuditEntry
    login_entry event user source_ip email = record {
      event_type = event;
      user_id = some user;
      client_id = none;
      actor_id = none;
      ip_address = some source_ip;
      metadata = ("email", email) ∷ [];
    }

    -- steps 2 and 3: a lockout that is active refuses, one that has passed is cleared
    unfoldable pub check_lockout : Uuid → Option Time → M (Unit {0})
    check_lockout user none = pure tt
    check_lockout user (some until) = do
      now ← time_now e
      guard (not (after until now)) (account_locked until)
      map_error (wrap "resetting expired lockout") (reset_login_attempts e user)
      pure tt

    -- `user.LastFailedLoginAt != nil && time.Since(...) <= ...`
    unfoldable pub within_window : Option Time → M Bool
    within_window none = pure false
    within_window (some last) = do
      now ← time_now e
      pure (signed_leb (sub_time now last) (duration s.cfg.window_seconds second))

    unfoldable pub lock_account : User → String → String → M VerifyCredentialsResult
    lock_account user email source_ip = do
      now ← time_now e
      let until = add_time now (duration s.cfg.duration_seconds second)
      map_error (wrap "locking user account") (lock_user_account e user.id until)
      audit e s.audited (login_entry locked_event user.id source_ip email)
      raise (account_locked until)

    unfoldable pub refuse_login : User → String → String → M VerifyCredentialsResult
    refuse_login user email source_ip = do
      audit e s.audited (login_entry login_failed user.id source_ip email)
      raise invalid_credentials

    -- the branch `if !match`; the window is judged by the row as it was read at the start
    unfoldable pub count_failure : User → String → String → M VerifyCredentialsResult
    count_failure user email source_ip = do
      updated ←
          map_error (wrap "incrementing failed login attempts")
            (increment_failed_login_attempts e user.id)
      within ← within_window user.last_failed_login_at
      if signed_leb s.cfg.max_attempts updated.failed_login_attempts && within
          then lock_account user email source_ip
          else refuse_login user email source_ip

    -- step 6
    unfoldable pub record_login : User → M VerifyCredentialsResult
    record_login user = do
      map_error (wrap "resetting login attempts after success") (reset_login_attempts e user.id)
      now ← time_now e
      updated ← map_error (wrap "updating last login") (update_last_login e user.id now)
      pure (record { user = updated; force_password_change = updated.force_password_change })

    unfoldable pub verify_credentials : String → String → String → M VerifyCredentialsResult
    verify_credentials email password source_ip = do
      user ←
          map_error (not_found_as invalid_credentials "getting user for auth")
            (get_user_by_email_for_auth e email)
      check_lockout user.id user.locked_until
      encoded ← lift_option invalid_credentials user.password_hash
      matches ← map_error (wrap "verifying password") (verify_argon2id password encoded)
      if matches then record_login user else count_failure user email source_ip
