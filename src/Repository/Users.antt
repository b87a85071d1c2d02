-- ===== src/Repository/Users.antt =====
-- internal/repository/users.sql.go. The trigger set_updated_at writes `updated_at` at each UPDATE.
use goauth_server.Prelude.{
  ℕ, ◌&&◌, select_all, ℕ, ◌+◌, ◌^◌, String, Bool, true, false, ◌&&◌, ◌||◌, Option, none, some, List,
  ◌∷◌, ◌==◌, leb, str_eq, if◌then◌else◌, select_first, update_where, exists,
}
use goauth_server.Model.{Uuid, Time, User, Db}
use goauth_server.Environment.{Environment}
use goauth_server.Repository.Pages.{newest_first, page, count, is_set_to, bool_eq}
use goauth_server.Exec.{Result, ok, err, M, statement, one_row, unique_violation, server_error}

pub record CreateUserParams : Type 0 where
  pub email : String
  pub email_verified : Bool
  pub first_name : Option String
  pub last_name : Option String
  pub provider : Option String
  pub provider_id : Option String
  pub locale : String
  pub last_login_at : Time

unfoldable pub new_user : ℕ → ℕ → CreateUserParams → User
new_user now id arg = record {
  id = id;
  email = arg.email;
  email_verified = arg.email_verified;
  first_name = arg.first_name;
  last_name = arg.last_name;
  is_active = true;
  locale = arg.locale;
  provider = arg.provider;
  provider_id = arg.provider_id;
  last_login_at = arg.last_login_at;
  created_at = now;
  updated_at = now;
  is_admin = some false;
  password_hash = none;
  force_password_change = false;
  failed_login_attempts = 0;
  last_failed_login_at = none;
  locked_until = none;
}

unfoldable pub set_failed : Time → User → User
set_failed now r = record r {
  failed_login_attempts = r.failed_login_attempts + 1;
  last_failed_login_at = some now;
  updated_at = now;
}

unfoldable pub set_locked : Time → Time → User → User
set_locked now until r = record r { locked_until = some until; updated_at = now }

unfoldable pub set_unlocked : Time → User → User
set_unlocked now r = record r { locked_until = none; updated_at = now }

unfoldable pub set_attempts_reset : Time → User → User
set_attempts_reset now r = record r {
  failed_login_attempts = 0;
  last_failed_login_at = none;
  locked_until = none;
  updated_at = now;
}

unfoldable pub set_force_change : Time → Bool → User → User
set_force_change now b r = record r { force_password_change = b; updated_at = now }

unfoldable pub set_last_login : Time → Time → User → User
set_last_login now at r = record r { last_login_at = at; updated_at = now }

unfoldable pub set_password_hash : Time → Option String → User → User
set_password_hash now hash r = record r { password_hash = hash; updated_at = now }

unfoldable pub set_active : Time → Bool → User → User
set_active now b r = record r { is_active = b; updated_at = now }

abbrev pub set_users : Db → List User → Db
set_users d rows = record d { users = rows }

-- column = $1 on a nullable text column: NULL equals nothing
abbrev pub same_text : Option String → Option String → Bool
same_text (some s) (some t) = str_eq s t
same_text _ _ = false

-- UPDATE users SET f WHERE id = $1 RETURNING ...
unfoldable pub update_user_row : Uuid → (User → User) → Db → Result User × Db
update_user_row user f d =
    let rows = update_where (λ r. r.id == user) f d.users in
    (one_row (select_first (λ r. r.id == user) rows), set_users d rows)

-- The column is a 32-bit integer: the increment of the largest one is an error of the server.
abbrev pub is_full : User → Bool
is_full r = leb (2 ^ 31) (r.failed_login_attempts + 1)

module _ (e : Environment) where
  unfoldable pub list_users : Bool → Bool → ℕ → ℕ → M (List User)
  list_users active admin limit offset = statement e λ now id d. (
    page limit offset (
        newest_first (λ r. r.created_at)
          (select_all (λ r. bool_eq active r.is_active && is_set_to admin r.is_admin) d.users)),
    d,
  )

  unfoldable pub count_users : Bool → Bool → M ℕ
  count_users active admin = statement e λ now id d. (
    ok (count (select_all (λ r. bool_eq active r.is_active && is_set_to admin r.is_admin) d.users)),
    d,
  )

module _ (e : Environment) where
  unfoldable pub create_user : CreateUserParams → M User
  create_user arg = statement e λ now id d.
      let row = new_user now id arg in
      if exists
        (λ r.
          str_eq r.email arg.email
          || r.id == id
          || (same_text r.provider arg.provider && same_text r.provider_id arg.provider_id))
        d.users
      then (err unique_violation, d)
      else (ok row, set_users d (row ∷ d.users))

  unfoldable pub get_user_by_email_for_auth : String → M User
  get_user_by_email_for_auth email =
      statement e λ now id d. (one_row (select_first (λ r. str_eq r.email email) d.users), d)

  unfoldable pub get_user_by_id : Uuid → M User
  get_user_by_id user =
      statement e λ now id d. (one_row (select_first (λ r. r.id == user) d.users), d)

  unfoldable pub get_user_by_provider_id : Option String → Option String → M User
  get_user_by_provider_id provider provider_id = statement e λ now id d. (
    one_row (
        select_first (λ r. same_text r.provider provider && same_text r.provider_id provider_id)
          d.users),
    d,
  )

  unfoldable pub increment_failed_login_attempts : Uuid → M User
  increment_failed_login_attempts user = statement e λ now id d.
      if exists (λ r. r.id == user && is_full r) d.users
      then (err server_error, d)
      else update_user_row user (set_failed now) d

  unfoldable pub lock_user_account : Uuid → Time → M User
  lock_user_account user until =
      statement e λ now id d. update_user_row user (set_locked now until) d

  unfoldable pub unlock_user_account : Uuid → M User
  unlock_user_account user = statement e λ now id d. update_user_row user (set_unlocked now) d

  unfoldable pub reset_login_attempts : Uuid → M User
  reset_login_attempts user =
      statement e λ now id d. update_user_row user (set_attempts_reset now) d

  unfoldable pub set_force_password_change : Uuid → Bool → M User
  set_force_password_change user b =
      statement e λ now id d. update_user_row user (set_force_change now b) d

  unfoldable pub update_last_login : Uuid → Time → M User
  update_last_login user at = statement e λ now id d. update_user_row user (set_last_login now at) d

  unfoldable pub update_password_hash : Uuid → Option String → M User
  update_password_hash user hash =
      statement e λ now id d. update_user_row user (set_password_hash now hash) d

  unfoldable pub update_user_active_status : Uuid → Bool → M User
  update_user_active_status user b =
      statement e λ now id d. update_user_row user (set_active now b) d
