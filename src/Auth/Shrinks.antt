-- ===== src/Auth/Shrinks.antt =====
-- What shrinking keeps, every part of the auth service keeps that adds no refresh token.
use goauth_server.Prelude.{ℕ, String, Option, none, some, List}
use goauth_server.Model.{Uuid, Time, AccessToken, AuthorizationCode, Client, RefreshToken}
use goauth_server.Environment.{Environment}
use goauth_server.Exec.{Result, ok, err}
use goauth_server.Exec.Keeps.{Keeps, keeps_rules}
use goauth_server.Repository.Blind.{frame_rules}
use goauth_server.Repository.Frames.{On, refresh_rows}
use goauth_server.Password.{Unicode}
use goauth_server.Auth.Service.{
  Service, time_now, generate_secure_token, generate_access_token, store_direct_login_token,
}
use goauth_server.Auth.Rotation.{
  authenticate_client, check_client, handle_replay, issue_access_token,
}
use goauth_server.Auth.Rotation.Retires.{
  Shrinks, Shrinks-Ages, mark_refresh_token_used-Shrinks, revoke_refresh_token-Shrinks,
  revoke_refresh_token_family-Shrinks, revoke_refresh_tokens_by_user-Shrinks,
}
use goauth_server.Auth.Authorization.{check_code, issue_code_token}
use goauth_server.Auth.Revoke.{
  revoke_access_token_record, revoke_linked, revoke_refresh_token_and_linked_access,
  revoke_access_found, revoke_as_access, revoke_refresh_found, revoke_any_token, revoke_token,
  revoke_raw_token, revoke_all_user_access_tokens, revoke_user_refresh_tokens,
}
use goauth_server.Auth.Login.{
  verify_argon2id, check_lockout, within_window, lock_account, refuse_login, count_failure,
  record_login, verify_credentials,
}
use goauth_server.Auth.ChangePassword.{hash_argon2id, store_password, change_password}

pub ruleset shrinks_rules = (
  keeps_rules, frame_rules, Shrinks-Ages, mark_refresh_token_used-Shrinks,
  revoke_refresh_token-Shrinks, revoke_refresh_token_family-Shrinks,
  revoke_refresh_tokens_by_user-Shrinks,
)

module _ {P : ℕ → List RefreshToken → Type 0} (shrinks : Shrinks P) (e : Environment)
    (s : Service) where
  pub authenticate_client-Shrinks :
      (id secret : String) → Keeps (On refresh_rows P) (authenticate_client e s id secret)
  unfolding authenticate_client
  authenticate_client-Shrinks id secret = search shrinks_rules depth 9

  pub handle_replay-Shrinks :
      (old : RefreshToken) → Keeps (On refresh_rows P) (handle_replay e s old)
  unfolding handle_replay
  handle_replay-Shrinks old = search shrinks_rules depth 9

  pub generate_secure_token-Shrinks :
      (n : ℕ) → Keeps (On refresh_rows P) (generate_secure_token e n)
  unfolding generate_secure_token
  generate_secure_token-Shrinks n = search shrinks_rules depth 9

  pub issue_access_token-Shrinks :
      (old : RefreshToken) (cid : Uuid) → Keeps (On refresh_rows P) (issue_access_token e s old cid)
  unfolding issue_access_token generate_access_token time_now
  issue_access_token-Shrinks old cid = search shrinks_rules depth 12

  pub check_client-Shrinks :
      (client : Client) (secret : String) → Keeps (On refresh_rows P) (check_client e client secret)
  unfolding check_client
  check_client-Shrinks client secret = search shrinks_rules

  pub check_code-Shrinks :
      (c : AuthorizationCode) (client_id : Uuid) (redirect_uri : String)
      → Keeps (On refresh_rows P) (check_code e s c client_id redirect_uri)
  unfolding check_code
  check_code-Shrinks c client_id redirect_uri = search shrinks_rules depth 12

  pub issue_code_token-Shrinks :
      (c : AuthorizationCode) (client_id : Uuid)
      → Keeps (On refresh_rows P) (issue_code_token e s c client_id)
  unfolding issue_code_token generate_access_token time_now
  issue_code_token-Shrinks c client_id = search shrinks_rules depth 12

  revoke_access_token_record-Shrinks :
      (t : AccessToken) → Keeps (On refresh_rows P) (revoke_access_token_record e s t)
  unfolding revoke_access_token_record
  revoke_access_token_record-Shrinks t = search shrinks_rules depth 9

  revoke_linked-Shrinks : (r : Result AccessToken) → Keeps (On refresh_rows P) (revoke_linked e s r)
  unfolding revoke_linked
  revoke_linked-Shrinks (ok t) = search (shrinks_rules, revoke_access_token_record-Shrinks)
  revoke_linked-Shrinks (err r) = search shrinks_rules

  revoke_access_found-Shrinks :
      (r : Result AccessToken) → Keeps (On refresh_rows P) (revoke_access_found e s r)
  unfolding revoke_access_found
  revoke_access_found-Shrinks (ok t) = revoke_access_token_record-Shrinks t
  revoke_access_found-Shrinks (err r) = search shrinks_rules

  revoke_as_access-Shrinks : (hash : String) → Keeps (On refresh_rows P) (revoke_as_access e s hash)
  unfolding revoke_as_access
  revoke_as_access-Shrinks hash = search (shrinks_rules, revoke_access_found-Shrinks)

  revoke_refresh_found-Shrinks :
      (hash : String) (r : Result RefreshToken)
      → Keeps (On refresh_rows P) (revoke_refresh_found e s hash r)
  unfolding revoke_refresh_found revoke_refresh_token_and_linked_access
  revoke_refresh_found-Shrinks hash (ok t) = search (shrinks_rules, revoke_linked-Shrinks) depth 12
  revoke_refresh_found-Shrinks hash (err r) = search (shrinks_rules, revoke_as_access-Shrinks)

  pub revoke_any_token-Shrinks :
      (raw_token hint : String) → Keeps (On refresh_rows P) (revoke_any_token e s raw_token hint)
  unfolding revoke_any_token
  revoke_any_token-Shrinks raw_token hint =
      search (shrinks_rules, revoke_as_access-Shrinks, revoke_refresh_found-Shrinks)

  pub revoke_raw_token-Shrinks :
      (raw_token : String) → Keeps (On refresh_rows P) (revoke_raw_token e raw_token)
  unfolding revoke_raw_token revoke_token
  revoke_raw_token-Shrinks raw_token = search shrinks_rules depth 9

  pub revoke_all_user_access_tokens-Shrinks :
      (user : Uuid) → Keeps (On refresh_rows P) (revoke_all_user_access_tokens e user)
  unfolding revoke_all_user_access_tokens
  revoke_all_user_access_tokens-Shrinks user = search shrinks_rules depth 9

  pub revoke_user_refresh_tokens-Shrinks :
      (user : Uuid) (reason : String)
      → Keeps (On refresh_rows P) (revoke_user_refresh_tokens e user reason)
  unfolding revoke_user_refresh_tokens
  revoke_user_refresh_tokens-Shrinks user reason = search shrinks_rules

  pub store_direct_login_token-Shrinks :
      (token : String) (user : Uuid)
      → Keeps (On refresh_rows P) (store_direct_login_token e s token user)
  unfolding store_direct_login_token
  store_direct_login_token-Shrinks token user = search shrinks_rules depth 9

  check_lockout-Shrinks :
      (user : Uuid) (until : Option Time) → Keeps (On refresh_rows P) (check_lockout e s user until)
  unfolding check_lockout time_now
  check_lockout-Shrinks user none = search shrinks_rules
  check_lockout-Shrinks user (some until) = search shrinks_rules depth 9

  within_window-Shrinks : (last : Option Time) → Keeps (On refresh_rows P) (within_window e s last)
  unfolding within_window time_now
  within_window-Shrinks none = search shrinks_rules
  within_window-Shrinks (some last) = search shrinks_rules

  pub verify_credentials-Shrinks :
      (email password source_ip : String)
      → Keeps (On refresh_rows P) (verify_credentials e s email password source_ip)
  unfolding verify_credentials verify_argon2id lock_account refuse_login count_failure record_login
      time_now
  verify_credentials-Shrinks email password source_ip =
      search (shrinks_rules, check_lockout-Shrinks, within_window-Shrinks) depth 20

  pub change_password-Shrinks :
      (u : Unicode) (user : Uuid) (new_password : String)
      → Keeps (On refresh_rows P) (change_password e s u user new_password)
  unfolding change_password store_password hash_argon2id
  change_password-Shrinks u user new_password = search shrinks_rules depth 20
