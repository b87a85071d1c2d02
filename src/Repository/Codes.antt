-- ===== src/Repository/Codes.antt =====
-- internal/repository/authorization_codes.sql.go
use goauth_server.Prelude.{
  ℕ, Bool, ◌&&◌, ℕ, String, true, false, not, ◌||◌, Option, none, some, List, ◌∷◌, ◌==◌, ltb,
  str_eq, if◌then◌else◌, select_first, select_all, update_where, exists,
}
use goauth_server.Model.{Uuid, Time, AuthorizationCode, Db}
use goauth_server.Environment.{Environment}
use goauth_server.Repository.Pages.{newest_first, page, count, is_set_to}
use goauth_server.Exec.{ok, err, M, statement, one_row, unique_violation}

pub record CreateAuthorizationCodeParams : Type 0 where
  pub code : String
  pub client_id : Uuid
  pub user_id : Uuid
  pub provider_id : Uuid
  pub redirect_uri : String
  pub scope : Option String
  pub state : Option String
  pub code_challenge : Option String
  pub code_challenge_method : Option String
  pub expires_at : Time

unfoldable pub new_code : ℕ → ℕ → CreateAuthorizationCodeParams → AuthorizationCode
new_code now id arg = record {
  id = id;
  code = arg.code;
  client_id = arg.client_id;
  user_id = arg.user_id;
  provider_id = arg.provider_id;
  redirect_uri = arg.redirect_uri;
  scope = arg.scope;
  state = arg.state;
  code_challenge = arg.code_challenge;
  code_challenge_method = arg.code_challenge_method;
  expires_at = arg.expires_at;
  used_at = none;
  is_revoked = some false;
  created_at = now;
}

-- SET used_at = now()
unfoldable pub set_used : Time → AuthorizationCode → AuthorizationCode
set_used now r = record r { used_at = some now }

-- SET is_revoked = true
unfoldable pub set_code_revoked : AuthorizationCode → AuthorizationCode
set_code_revoked r = record r { is_revoked = some true }

abbrev pub set_codes : Db → List AuthorizationCode → Db
set_codes d rows = record d { codes = rows }

-- The filter of the listing. A Go UUID and a Go bool are never NULL.
abbrev pub code_matches : Uuid → Uuid → Bool → AuthorizationCode → Bool
code_matches client user revoked r =
    r.client_id == client && r.user_id == user && is_set_to revoked r.is_revoked

module _ (e : Environment) where
  unfoldable pub list_authorization_codes : Uuid → Uuid → Bool → ℕ → ℕ → M (List AuthorizationCode)
  list_authorization_codes client user revoked limit offset = statement e λ now id d. (
    page limit offset
        (newest_first (λ r. r.created_at) (select_all (code_matches client user revoked) d.codes)),
    d,
  )

  unfoldable pub count_authorization_codes : Uuid → Uuid → Bool → M ℕ
  count_authorization_codes client user revoked =
      statement e
        λ now id d. (ok (count (select_all (code_matches client user revoked) d.codes)), d)

  unfoldable pub create_authorization_code : CreateAuthorizationCodeParams → M AuthorizationCode
  create_authorization_code arg = statement e λ now id d.
      let row = new_code now id arg in
      if exists (λ r. str_eq r.code arg.code || r.id == id) d.codes
      then (err unique_violation, d)
      else (ok row, set_codes d (row ∷ d.codes))

  unfoldable pub get_authorization_code : String → M AuthorizationCode
  get_authorization_code code =
      statement e λ now id d. (one_row (select_first (λ r. str_eq r.code code) d.codes), d)

  unfoldable pub get_authorization_code_by_id : Uuid → M AuthorizationCode
  get_authorization_code_by_id code =
      statement e λ now id d. (one_row (select_first (λ r. r.id == code) d.codes), d)

  -- UPDATE ... RETURNING: no row is an error
  unfoldable pub mark_authorization_code_used : Uuid → M AuthorizationCode
  mark_authorization_code_used code = statement e λ now id d.
      let rows = update_where (λ r. r.id == code) (set_used now) d.codes in
      (one_row (select_first (λ r. r.id == code) rows), set_codes d rows)

  unfoldable pub revoke_authorization_code : Uuid → M (Unit {0})
  revoke_authorization_code code =
      statement e
        λ now id d. (ok tt, set_codes d (update_where (λ r. r.id == code) set_code_revoked d.codes))

  unfoldable pub revoke_authorization_code_by_code : String → M (Unit {0})
  revoke_authorization_code_by_code code = statement e λ now id d.
      (ok tt, set_codes d (update_where (λ r. str_eq r.code code) set_code_revoked d.codes))

  unfoldable pub delete_expired_authorization_codes : M (Unit {0})
  delete_expired_authorization_codes =
      statement e
        λ now id d. (ok tt, set_codes d (select_all (λ r. not (ltb r.expires_at now)) d.codes))
