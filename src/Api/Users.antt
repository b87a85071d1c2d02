-- ===== src/Api/Users.antt =====
-- internal/transport/http/api/v1/handler/user_handler.go and admin_lockout.go
pub mod Unlocked
use goauth_server.Prelude.{
  ℕ, String, Bool, true, false, Option, none, some, List, [], ◌∷◌, if◌then◌else◌,
}
use goauth_server.Model.{Uuid}
use goauth_server.Environment.{Environment}
use goauth_server.Exec.{Error, Result, ok, err, M, ◌>>=◌, ◌>>◌, pure, wrap, no_such_user}
use goauth_server.Http.{Request, Context, Reply, success, failure, or_answer, errors_is}
use goauth_server.Repository.Audit.{account_unlocked, admin_session_revoked, audit}
use goauth_server.Auth.Revoke.{revoke_user_refresh_tokens}
use goauth_server.UserService.{
  UserView, ListUsersResult, list_user_page, get_user, update_user_status, unlock_account,
}
use goauth_server.Api.Pagination.{parse_pagination_params, with_page}
use goauth_server.Api.Clients.{optional_bool}

abbrev is_no_such_user : Error → Bool
is_no_such_user no_such_user = true
is_no_such_user _ = false

unfoldable pub handle_user_error : {A : Type 0} → Error → Reply A
handle_user_error r =
    if errors_is is_no_such_user r
    then failure 404 "user not found"
    else failure 500 "internal server error"

module _ (e : Environment) where
  abbrev pub with_user_filters :
      ℕ → ℕ → Option (Option Bool) → Option (Option Bool) → M (Reply ListUsersResult)
  with_user_filters limit offset none admin = pure (failure 400 "is_active must be true or false")
  with_user_filters limit offset (some active) none =
      pure (failure 400 "is_admin must be true or false")
  with_user_filters limit offset (some active) (some admin) =
      or_answer (list_user_page e active admin limit offset)
        (λ r. failure 500 "internal server error") λ result. pure (success 200 result)

  unfoldable pub list_users_handler : Request → M (Reply ListUsersResult)
  list_users_handler r = with_page (parse_pagination_params e r) λ limit offset.
      with_user_filters limit offset (optional_bool e (r.query "is_active"))
        (optional_bool e (r.query "is_admin"))

  -- The body is the flag that the binding finds.
  abbrev pub update_status_of : Option Uuid → Option Bool → M (Reply UserView)
  update_status_of none body = pure (failure 400 "invalid user id")
  update_status_of (some id) none = pure (failure 400 "invalid body")
  update_status_of (some id) (some is_active) =
      or_answer (update_user_status e id is_active) handle_user_error λ u. pure (success 200 u)

  unfoldable pub update_user_status_handler : Request → Option Bool → M (Reply UserView)
  update_user_status_handler r body = update_status_of (e.parse_uuid (r.param "id")) body

  -- the acting administrator
  abbrev pub actor : Option String → Option Uuid
  actor none = none
  actor (some raw) = e.parse_uuid raw

  abbrev pub unlock_user_of : Bool → Option String → Option Uuid → M (Reply (Unit {0}))
  unlock_user_of audited admin none = pure (failure 404 "user not found")
  unlock_user_of audited admin (some id) = or_answer (unlock_account e id) handle_user_error λ x. do
    audit e audited (record {
      event_type = account_unlocked;
      user_id = some id;
      client_id = none;
      actor_id = actor admin;
      ip_address = none;
      metadata = ("reason", "admin_unlock") ∷ [];
    })
    pure (success 204 tt)

  unfoldable pub unlock_user : Bool → Context → Request → M (Reply (Unit {0}))
  unlock_user audited c r = unlock_user_of audited c.user_id (e.parse_uuid (r.param "id"))

  abbrev pub revoke_sessions_of : Bool → Option String → Option Uuid → M (Reply (Unit {0}))
  revoke_sessions_of audited admin none = pure (failure 404 "user not found")
  revoke_sessions_of audited admin (some id) = or_answer (get_user e id) handle_user_error λ user.
      or_answer (revoke_user_refresh_tokens e id "admin_revoked")
        (λ r. failure 500 "internal server error")
        λ x. do
          audit e audited (record {
            event_type = admin_session_revoked;
            user_id = some id;
            client_id = none;
            actor_id = actor admin;
            ip_address = none;
            metadata = ("reason", "admin_revoked") ∷ [];
          })
          pure (success 204 tt)

  unfoldable pub revoke_user_sessions_handler : Bool → Context → Request → M (Reply (Unit {0}))
  revoke_user_sessions_handler audited c r =
      revoke_sessions_of audited c.user_id (e.parse_uuid (r.param "id"))
