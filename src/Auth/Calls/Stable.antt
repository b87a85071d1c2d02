-- ===== src/Auth/Calls/Stable.antt =====
-- Predicates on one table that every call keeps, given that every statement does.
use goauth_server.Prelude.{ℕ, Bool, String, Option, some, none}
use goauth_server.Model.{Db, Uuid, Time, AccessToken, RefreshToken}
use goauth_server.Environment.{Environment}
use goauth_server.Exec.{Result, ok, err}
use goauth_server.Exec.Keeps.{Ages, Keeps, Keeps-ignore, keeps_rules}
use goauth_server.Repository.Frames.{On}
use goauth_server.Repository.Blind.{frame_rules}
use goauth_server.Password.{Unicode}
use goauth_server.Auth.Service.{
  Service, time_now, new_uuid, generate_access_token, generate_secure_token,
  store_direct_login_token,
}
use goauth_server.Auth.Rotation.{
  authenticate_client, check_client, handle_replay, issue_access_token, issue_rotated,
  rotate_record, rotate_refresh_token,
}
use goauth_server.Auth.Authorization.{
  check_code, issue_code_token, issue_refresh_token, redeem_code, exchange_code_for_token,
}
use goauth_server.Auth.Revoke.{
  revoke_access_token_record, revoke_linked, revoke_refresh_token_and_linked_access,
  revoke_access_found, revoke_as_access, revoke_refresh_found, revoke_any_token, revoke_token,
  revoke_raw_token, revoke_all_user_access_tokens, revoke_user_refresh_tokens,
}
use goauth_server.Auth.Login.{
  verify_argon2id, check_lockout, within_window, lock_account, refuse_login, count_failure,
  record_login, verify_credentials,
}
use goauth_server.Auth.ChangePassword.{hash_argon2id, store_password, change_password}
use goauth_server.Auth.Calls.{
  Call, exchange, rotate, revoke_any, revoke_raw, revoke_user_access, revoke_user_refresh,
  store_login, login, change, handle,
}
use goauth_server.Repository.AccessTokens.{
  CreateAccessTokenParams, create_access_token, revoke_access_token, revoke_access_tokens_by_user,
}
use goauth_server.Repository.Codes.{mark_authorization_code_used}
use goauth_server.Repository.RefreshTokens.{
  CreateRefreshTokenParams, create_refresh_token, mark_refresh_token_used, revoke_refresh_token,
  revoke_refresh_token_family, revoke_refresh_tokens_by_user,
}
use goauth_server.Repository.Users.{
  increment_failed_login_attempts, lock_user_account, reset_login_attempts, update_last_login,
  set_force_password_change, update_password_hash,
}
use goauth_server.Repository.Audit.{AuditEntry, audit}

-- What holds of one table after every statement of the auth service.
pub record Stable (e : Environment) {T : Type 0} (view : Db → T) (P : ℕ → T → Type 0) : Type 0 where
  pub ages : Ages (On view P)
  pub access_created :
      (arg : CreateAccessTokenParams) → Keeps (On view P) (create_access_token e arg)
  pub access_revoked : (i : Uuid) → Keeps (On view P) (revoke_access_token e i)
  pub user_access_revoked : (i : Uuid) → Keeps (On view P) (revoke_access_tokens_by_user e i)
  pub code_used : (i : Uuid) → Keeps (On view P) (mark_authorization_code_used e i)
  pub refresh_created :
      (arg : CreateRefreshTokenParams) → Keeps (On view P) (create_refresh_token e arg)
  pub refresh_used : (i : Uuid) → Keeps (On view P) (mark_refresh_token_used e i)
  pub refresh_revoked :
      (i : Uuid) (r : Option String) → Keeps (On view P) (revoke_refresh_token e i r)
  pub family_revoked :
      (i : Uuid) (r : Option String) → Keeps (On view P) (revoke_refresh_token_family e i r)
  pub user_refresh_revoked :
      (i : Uuid) (r : Option String) → Keeps (On view P) (revoke_refresh_tokens_by_user e i r)
  pub failure_counted : (i : Uuid) → Keeps (On view P) (increment_failed_login_attempts e i)
  pub locked : (i : Uuid) (until : Time) → Keeps (On view P) (lock_user_account e i until)
  pub failures_reset : (i : Uuid) → Keeps (On view P) (reset_login_attempts e i)
  pub login_recorded : (i : Uuid) (at : Time) → Keeps (On view P) (update_last_login e i at)
  pub flag_set : (i : Uuid) (b : Bool) → Keeps (On view P) (set_force_password_change e i b)
  pub hash_set :
      (i : Uuid) (hash : Option String) → Keeps (On view P) (update_password_hash e i hash)
  pub logged : (audited : Bool) (entry : AuditEntry) → Keeps (On view P) (audit e audited entry)

module _ {e : Environment} {T : Type 0} {view : Db → T} {P : ℕ → T → Type 0}
    (stable : Stable e view P) where
  Stable-Ages : Ages (On view P)
  Stable-Ages = stable.ages

  create_access_token-Stable :
      (arg : CreateAccessTokenParams) → Keeps (On view P) (create_access_token e arg)
  create_access_token-Stable arg = stable.access_created arg

  revoke_access_token-Stable : (i : Uuid) → Keeps (On view P) (revoke_access_token e i)
  revoke_access_token-Stable i = stable.access_revoked i

  revoke_access_tokens_by_user-Stable :
      (i : Uuid) → Keeps (On view P) (revoke_access_tokens_by_user e i)
  revoke_access_tokens_by_user-Stable i = stable.user_access_revoked i

  mark_authorization_code_used-Stable :
      (i : Uuid) → Keeps (On view P) (mark_authorization_code_used e i)
  mark_authorization_code_used-Stable i = stable.code_used i

  create_refresh_token-Stable :
      (arg : CreateRefreshTokenParams) → Keeps (On view P) (create_refresh_token e arg)
  create_refresh_token-Stable arg = stable.refresh_created arg

  mark_refresh_token_used-Stable : (i : Uuid) → Keeps (On view P) (mark_refresh_token_used e i)
  mark_refresh_token_used-Stable i = stable.refresh_used i

  revoke_refresh_token-Stable :
      (i : Uuid) (r : Option String) → Keeps (On view P) (revoke_refresh_token e i r)
  revoke_refresh_token-Stable i r = stable.refresh_revoked i r

  revoke_refresh_token_family-Stable :
      (i : Uuid) (r : Option String) → Keeps (On view P) (revoke_refresh_token_family e i r)
  revoke_refresh_token_family-Stable i r = stable.family_revoked i r

  revoke_refresh_tokens_by_user-Stable :
      (i : Uuid) (r : Option String) → Keeps (On view P) (revoke_refresh_tokens_by_user e i r)
  revoke_refresh_tokens_by_user-Stable i r = stable.user_refresh_revoked i r

  increment_failed_login_attempts-Stable :
      (i : Uuid) → Keeps (On view P) (increment_failed_login_attempts e i)
  increment_failed_login_attempts-Stable i = stable.failure_counted i

  lock_user_account-Stable :
      (i : Uuid) (until : Time) → Keeps (On view P) (lock_user_account e i until)
  lock_user_account-Stable i until = stable.locked i until

  reset_login_attempts-Stable : (i : Uuid) → Keeps (On view P) (reset_login_attempts e i)
  reset_login_attempts-Stable i = stable.failures_reset i

  update_last_login-Stable : (i : Uuid) (at : Time) → Keeps (On view P) (update_last_login e i at)
  update_last_login-Stable i at = stable.login_recorded i at

  set_force_password_change-Stable :
      (i : Uuid) (b : Bool) → Keeps (On view P) (set_force_password_change e i b)
  set_force_password_change-Stable i b = stable.flag_set i b

  update_password_hash-Stable :
      (i : Uuid) (hash : Option String) → Keeps (On view P) (update_password_hash e i hash)
  update_password_hash-Stable i hash = stable.hash_set i hash

  audit-Stable : (audited : Bool) (entry : AuditEntry) → Keeps (On view P) (audit e audited entry)
  audit-Stable audited entry = stable.logged audited entry

ruleset stable_rules = (
  keeps_rules, frame_rules, Stable-Ages, create_access_token-Stable, revoke_access_token-Stable,
  revoke_access_tokens_by_user-Stable, mark_authorization_code_used-Stable,
  create_refresh_token-Stable, mark_refresh_token_used-Stable, revoke_refresh_token-Stable,
  revoke_refresh_token_family-Stable, revoke_refresh_tokens_by_user-Stable,
  increment_failed_login_attempts-Stable, lock_user_account-Stable, reset_login_attempts-Stable,
  update_last_login-Stable, set_force_password_change-Stable, update_password_hash-Stable,
  audit-Stable,
)

module _ (e : Environment) (s : Service) {T : Type 0} {view : Db → T} {P : ℕ → T → Type 0}
    (stable : Stable e view P) where
  exchange_code_for_token-Stable :
      (c : String) (client_id : Uuid) (client_secret redirect_uri : String)
      → Keeps (On view P) (exchange_code_for_token e s c client_id client_secret redirect_uri)
  unfolding exchange_code_for_token check_client check_code redeem_code issue_code_token
      issue_refresh_token time_now new_uuid generate_access_token generate_secure_token
  exchange_code_for_token-Stable c client_id client_secret redirect_uri =
      search stable_rules depth 30

  rotate_refresh_token-Stable :
      (raw_token client_id client_secret : String)
      → Keeps (On view P) (rotate_refresh_token e s raw_token client_id client_secret)
  unfolding rotate_refresh_token authenticate_client check_client handle_replay issue_access_token
      issue_rotated rotate_record time_now generate_access_token generate_secure_token
  rotate_refresh_token-Stable raw_token client_id client_secret = search stable_rules depth 30

  revoke_linked-Stable : (r : Result AccessToken) → Keeps (On view P) (revoke_linked e s r)
  unfolding revoke_linked revoke_access_token_record
  revoke_linked-Stable (ok t) = search stable_rules depth 9
  revoke_linked-Stable (err r) = search stable_rules

  revoke_access_found-Stable :
      (r : Result AccessToken) → Keeps (On view P) (revoke_access_found e s r)
  unfolding revoke_access_found revoke_access_token_record
  revoke_access_found-Stable (ok t) = search stable_rules depth 9
  revoke_access_found-Stable (err r) = search stable_rules

  revoke_refresh_found-Stable :
      (hash : String) (r : Result RefreshToken)
      → Keeps (On view P) (revoke_refresh_found e s hash r)
  unfolding revoke_refresh_found revoke_refresh_token_and_linked_access revoke_as_access
  revoke_refresh_found-Stable hash (ok t) = search (stable_rules, revoke_linked-Stable) depth 12
  revoke_refresh_found-Stable hash (err r) =
      search (stable_rules, revoke_access_found-Stable) depth 12

  revoke_any_token-Stable :
      (raw_token hint : String) → Keeps (On view P) (revoke_any_token e s raw_token hint)
  unfolding revoke_any_token revoke_as_access
  revoke_any_token-Stable raw_token hint =
      search (stable_rules, revoke_access_found-Stable, revoke_refresh_found-Stable) depth 12

  check_lockout-Stable :
      (user : Uuid) (until : Option Time) → Keeps (On view P) (check_lockout e s user until)
  unfolding check_lockout time_now
  check_lockout-Stable user none = search stable_rules
  check_lockout-Stable user (some until) = search stable_rules depth 9

  within_window-Stable : (last : Option Time) → Keeps (On view P) (within_window e s last)
  unfolding within_window time_now
  within_window-Stable none = search stable_rules
  within_window-Stable (some last) = search stable_rules

  verify_credentials-Stable :
      (email password source_ip : String)
      → Keeps (On view P) (verify_credentials e s email password source_ip)
  unfolding verify_credentials verify_argon2id lock_account refuse_login count_failure record_login
      time_now
  verify_credentials-Stable email password source_ip =
      search (stable_rules, check_lockout-Stable, within_window-Stable) depth 20

  pub handle-Stable : (u : Unicode) (c : Call) → Keeps (On view P) (handle e s u c)
  unfolding handle revoke_raw_token revoke_token revoke_all_user_access_tokens
      revoke_user_refresh_tokens store_direct_login_token change_password store_password
      hash_argon2id time_now
  handle-Stable u (exchange c client_id client_secret redirect_uri) =
      Keeps-ignore _ (exchange_code_for_token-Stable c client_id client_secret redirect_uri)
  handle-Stable u (rotate raw_token client_id client_secret) =
      Keeps-ignore _ (rotate_refresh_token-Stable raw_token client_id client_secret)
  handle-Stable u (revoke_any raw_token hint) =
      Keeps-ignore _ (revoke_any_token-Stable raw_token hint)
  handle-Stable u (revoke_raw raw_token) = search stable_rules depth 12
  handle-Stable u (revoke_user_access user) = search stable_rules depth 12
  handle-Stable u (revoke_user_refresh user reason) = search stable_rules depth 12
  handle-Stable u (store_login token user) = search stable_rules depth 12
  handle-Stable u (login email password source_ip) =
      Keeps-ignore _ (verify_credentials-Stable email password source_ip)
  handle-Stable u (change user new_password) = search stable_rules depth 20
