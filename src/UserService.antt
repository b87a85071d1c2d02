-- ===== src/UserService.antt =====
-- internal/service/user/user.go
use goauth_server.Prelude.{true, false, none, some, List, map, ℕ, String, Bool, Option, is_true}
use goauth_server.Model.{Uuid, Time, User}
use goauth_server.Environment.{Environment}
use goauth_server.Exec.{M, wrap, no_such_user, ◌>>=◌, ◌>>◌, pure, map_error, not_found_as}
use goauth_server.Repository.Pages.{default_limit}
use goauth_server.Repository.Users.{
  list_users, count_users, get_user_by_id, update_user_active_status, unlock_user_account,
}

-- user.User: the account without the fields of the provider and of the login
pub record UserView : Type 0 where
  pub id : Uuid
  pub email : String
  pub email_verified : Bool
  pub first_name : Option String
  pub last_name : Option String
  pub is_active : Bool
  pub is_admin : Bool
  pub locale : String
  pub last_login_at : Time
  pub created_at : Time
  pub updated_at : Time

unfoldable pub to_user : User → UserView
to_user r = record {
  id = r.id;
  email = r.email;
  email_verified = r.email_verified;
  first_name = r.first_name;
  last_name = r.last_name;
  is_active = r.is_active;
  is_admin = is_true r.is_admin;
  locale = r.locale;
  last_login_at = r.last_login_at;
  created_at = r.created_at;
  updated_at = r.updated_at;
}

pub record ListUsersResult : Type 0 where
  pub users : List UserView
  pub total : ℕ

-- `x := default; if p != nil { x = *p }`
abbrev pub or_default : {A : Type 0} → A → Option A → A
or_default default none = default
or_default default (some a) = a

module _ (e : Environment) where
  unfoldable pub list_user_page : Option Bool → Option Bool → ℕ → ℕ → M ListUsersResult
  list_user_page is_active is_admin limit offset = do
    rows ← map_error (wrap "listing users") (
        list_users e (or_default true is_active) (or_default false is_admin) (default_limit limit)
          offset)
    total ←
        map_error (wrap "counting users")
          (count_users e (or_default true is_active) (or_default false is_admin))
    pure (record { users = map to_user rows; total = total })

  unfoldable pub get_user : Uuid → M UserView
  get_user id = do
    row ← map_error (not_found_as no_such_user "getting user") (get_user_by_id e id)
    pure (to_user row)

  unfoldable pub update_user_status : Uuid → Bool → M UserView
  update_user_status id is_active = do
    row ←
        map_error (not_found_as no_such_user "updating user status")
          (update_user_active_status e id is_active)
    pure (to_user row)

  unfoldable pub is_admin : Uuid → M Bool
  is_admin user_id = do
    row ←
        map_error (not_found_as no_such_user "getting user for admin check")
          (get_user_by_id e user_id)
    pure (is_true row.is_admin)

  unfoldable pub unlock_account : Uuid → M (Unit {0})
  unlock_account user_id = do
    map_error (not_found_as no_such_user "unlocking user account") (unlock_user_account e user_id)
    pure tt
