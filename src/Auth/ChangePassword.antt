-- ===== src/Auth/ChangePassword.antt =====
-- internal/service/auth/change_password.go
pub mod Stored
use goauth_server.Prelude.{◌*◌, String, false, none, some, [], str_append}
use goauth_server.Model.{Uuid}
use goauth_server.Environment.{Environment}
use goauth_server.Exec.{
  M, user_not_found, force_password_change_satisfied, failure, wrap, ◌>>=◌, ◌>>◌, pure, map_error,
  ignore, guard, lift_option, lift_result, not_found_as,
}
use goauth_server.Repository.Users.{get_user_by_id, update_password_hash, set_force_password_change}
use goauth_server.Repository.RefreshTokens.{revoke_refresh_tokens_by_user}
use goauth_server.Repository.Audit.{
  EventType, AuditEntry, user_password_changed, force_password_change_satisfied as satisfied_event,
  audit,
}
use goauth_server.Auth.Service.{Service, generate_random_bytes}
use goauth_server.Password.{Unicode, validate}

pub record ChangePasswordResult : Type 0 where
  pub user_id : String
  pub email : String

-- an entry about a user alone
abbrev pub user_entry : EventType → Uuid → AuditEntry
user_entry event user = record {
  event_type = event;
  user_id = some user;
  client_id = none;
  actor_id = none;
  ip_address = none;
  metadata = [];
}

module _ (e : Environment) where
  -- the PHC text of version 19 with m = 64 * 1024, t = 3 and p = 4
  unfoldable pub phc_string : String → String → String
  phc_string salt64 hash64 =
      str_append "$argon2id$v=19$m=65536,t=3,p=4$" (str_append salt64 (str_append "$" hash64))

  unfoldable pub hash_argon2id : String → M String
  unfolding phc_string generate_random_bytes
  hash_argon2id plain = do
    salt ← generate_random_bytes e 16
    hash ← lift_option (failure "panic: argon2") (e.id_key plain salt 3 (64 * 1024) 4 32)
    pure (phc_string (e.base64_encode salt) (e.base64_encode hash))

  module _ (s : Service) (u : Unicode) where
    -- what follows the guards: the new hash, the flag, the refresh tokens and the audit log
    unfoldable pub store_password : Uuid → String → M (Unit {0})
    store_password user_id new_password = do
      hash ← map_error (wrap "hashing new password") (hash_argon2id new_password)
      map_error (wrap "updating password hash") (update_password_hash e user_id (some hash))
      map_error (wrap "clearing force_password_change") (set_force_password_change e user_id false)
      ignore (revoke_refresh_tokens_by_user e user_id (some "password_change"))
      audit e s.audited (user_entry user_password_changed user_id)
      audit e s.audited (user_entry satisfied_event user_id)

    unfoldable pub change_password : Uuid → String → M ChangePasswordResult
    change_password user_id new_password = do
      user ←
          map_error (not_found_as user_not_found "fetch user for password change")
            (get_user_by_id e user_id)
      guard user.force_password_change force_password_change_satisfied
      lift_result (validate u new_password user.email)
      store_password user_id new_password
      pure (record { user_id = e.uuid_string user.id; email = user.email })
