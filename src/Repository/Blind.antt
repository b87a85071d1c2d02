-- ===== src/Repository/Blind.antt =====
-- Each table is another than the rest: a write of one is not seen in the view of another.
use goauth_server.Prelude.{refl}
use goauth_server.Repository.RefreshTokens.{set_refresh_tokens}
use goauth_server.Repository.AccessTokens.{set_access_tokens}
use goauth_server.Repository.Codes.{set_codes}
use goauth_server.Repository.Users.{set_users}
use goauth_server.Repository.Audit.{set_audit_log}
use goauth_server.Repository.Frames.{
  Blind, refresh_rows, access_rows, code_rows, user_rows, client_rows, get_client-On,
  get_refresh_token_by_hash-On, get_access_token-On, get_access_token_by_id-On,
  get_authorization_code-On, get_user_by_id-On, get_user_by_email_for_auth-On,
  create_access_token-On, revoke_access_token-On, revoke_access_tokens_by_user-On,
  create_refresh_token-On, mark_refresh_token_used-On, revoke_refresh_token-On,
  revoke_refresh_token_family-On, revoke_refresh_tokens_by_user-On, mark_authorization_code_used-On,
  increment_failed_login_attempts-On, lock_user_account-On, reset_login_attempts-On,
  update_last_login-On, set_force_password_change-On, update_password_hash-On, audit-On,
}

pub refresh_rows-set_access_tokens : Blind refresh_rows set_access_tokens
unfolding refresh_rows
refresh_rows-set_access_tokens = record { same = λ d rows. refl }

pub refresh_rows-set_codes : Blind refresh_rows set_codes
unfolding refresh_rows
refresh_rows-set_codes = record { same = λ d rows. refl }

pub refresh_rows-set_users : Blind refresh_rows set_users
unfolding refresh_rows
refresh_rows-set_users = record { same = λ d rows. refl }

pub refresh_rows-set_audit_log : Blind refresh_rows set_audit_log
unfolding refresh_rows
refresh_rows-set_audit_log = record { same = λ d rows. refl }

pub access_rows-set_refresh_tokens : Blind access_rows set_refresh_tokens
unfolding access_rows
access_rows-set_refresh_tokens = record { same = λ d rows. refl }

pub access_rows-set_codes : Blind access_rows set_codes
unfolding access_rows
access_rows-set_codes = record { same = λ d rows. refl }

pub access_rows-set_users : Blind access_rows set_users
unfolding access_rows
access_rows-set_users = record { same = λ d rows. refl }

pub access_rows-set_audit_log : Blind access_rows set_audit_log
unfolding access_rows
access_rows-set_audit_log = record { same = λ d rows. refl }

pub code_rows-set_refresh_tokens : Blind code_rows set_refresh_tokens
unfolding code_rows
code_rows-set_refresh_tokens = record { same = λ d rows. refl }

pub code_rows-set_access_tokens : Blind code_rows set_access_tokens
unfolding code_rows
code_rows-set_access_tokens = record { same = λ d rows. refl }

pub code_rows-set_users : Blind code_rows set_users
unfolding code_rows
code_rows-set_users = record { same = λ d rows. refl }

pub code_rows-set_audit_log : Blind code_rows set_audit_log
unfolding code_rows
code_rows-set_audit_log = record { same = λ d rows. refl }

pub user_rows-set_refresh_tokens : Blind user_rows set_refresh_tokens
unfolding user_rows
user_rows-set_refresh_tokens = record { same = λ d rows. refl }

pub user_rows-set_access_tokens : Blind user_rows set_access_tokens
unfolding user_rows
user_rows-set_access_tokens = record { same = λ d rows. refl }

pub user_rows-set_codes : Blind user_rows set_codes
unfolding user_rows
user_rows-set_codes = record { same = λ d rows. refl }

pub user_rows-set_audit_log : Blind user_rows set_audit_log
unfolding user_rows
user_rows-set_audit_log = record { same = λ d rows. refl }

-- The rules for the queries, on whatever table.
pub client_rows-set_refresh_tokens : Blind client_rows set_refresh_tokens
unfolding client_rows
client_rows-set_refresh_tokens = record { same = λ d rows. refl }

pub client_rows-set_access_tokens : Blind client_rows set_access_tokens
unfolding client_rows
client_rows-set_access_tokens = record { same = λ d rows. refl }

pub client_rows-set_codes : Blind client_rows set_codes
unfolding client_rows
client_rows-set_codes = record { same = λ d rows. refl }

pub client_rows-set_users : Blind client_rows set_users
unfolding client_rows
client_rows-set_users = record { same = λ d rows. refl }

pub client_rows-set_audit_log : Blind client_rows set_audit_log
unfolding client_rows
client_rows-set_audit_log = record { same = λ d rows. refl }

pub ruleset frame_rules = (
  get_client-On, get_refresh_token_by_hash-On, get_access_token-On, get_access_token_by_id-On,
  get_authorization_code-On, get_user_by_id-On, get_user_by_email_for_auth-On,
  create_access_token-On, revoke_access_token-On, revoke_access_tokens_by_user-On,
  create_refresh_token-On, mark_refresh_token_used-On, revoke_refresh_token-On,
  revoke_refresh_token_family-On, revoke_refresh_tokens_by_user-On, mark_authorization_code_used-On,
  increment_failed_login_attempts-On, lock_user_account-On, reset_login_attempts-On,
  update_last_login-On, set_force_password_change-On, update_password_hash-On, audit-On,
  refresh_rows-set_access_tokens, refresh_rows-set_codes, refresh_rows-set_users,
  refresh_rows-set_audit_log, access_rows-set_refresh_tokens, access_rows-set_codes,
  access_rows-set_users, access_rows-set_audit_log, code_rows-set_refresh_tokens,
  code_rows-set_access_tokens, code_rows-set_users, code_rows-set_audit_log,
  user_rows-set_refresh_tokens, user_rows-set_access_tokens, user_rows-set_codes,
  user_rows-set_audit_log, client_rows-set_refresh_tokens, client_rows-set_access_tokens,
  client_rows-set_codes, client_rows-set_users, client_rows-set_audit_log,
)
