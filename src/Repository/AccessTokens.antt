-- ===== src/Repository/AccessTokens.antt =====
-- internal/repository/access_tokens.sql.go
use goauth_server.Prelude.{
  ℕ, ◌&&◌, ℕ, String, Bool, true, false, not, ◌||◌, Option, none, some, List, ◌∷◌, ◌==◌, ltb,
  str_eq, if◌then◌else◌, select_first, select_all, update_where, exists,
}
use goauth_server.Model.{Uuid, Time, AccessToken, Db}
use goauth_server.Environment.{Environment}
use goauth_server.Repository.Pages.{newest_first, page, count, is_set_to}
use goauth_server.Exec.{ok, err, M, statement, one_row, unique_violation}

pub record CreateAccessTokenParams : Type 0 where
  pub token_hash : String
  pub client_id : Option Uuid
  pub user_id : Uuid
  pub scope : Option String
  pub expires_at : Time

unfoldable pub new_access_token : ℕ → ℕ → CreateAccessTokenParams → AccessToken
new_access_token now id arg = record {
  id = id;
  token_hash = arg.token_hash;
  client_id = arg.client_id;
  user_id = arg.user_id;
  scope = arg.scope;
  expires_at = arg.expires_at;
  is_revoked = some false;
  created_at = now;
}

-- SET is_revoked = true
unfoldable pub set_revoked : AccessToken → AccessToken
set_revoked r = record r { is_revoked = some true }

-- client_id = $1, which is not true of NULL
abbrev pub same_client : Option Uuid → Uuid → Bool
same_client none c = false
same_client (some d) c = d == c

abbrev pub set_access_tokens : Db → List AccessToken → Db
set_access_tokens d rows = record d { access_tokens = rows }

-- The filter of the listing. A Go UUID and a Go bool are never NULL.
abbrev pub token_matches : Uuid → Uuid → Bool → AccessToken → Bool
token_matches client user revoked r =
    same_client r.client_id client && r.user_id == user && is_set_to revoked r.is_revoked

module _ (e : Environment) where
  unfoldable pub list_access_tokens : Uuid → Uuid → Bool → ℕ → ℕ → M (List AccessToken)
  list_access_tokens client user revoked limit offset = statement e λ now id d. (
    page limit offset (
        newest_first (λ r. r.created_at)
          (select_all (token_matches client user revoked) d.access_tokens)),
    d,
  )

  unfoldable pub count_access_tokens : Uuid → Uuid → Bool → M ℕ
  count_access_tokens client user revoked =
      statement e
        λ now id d. (ok (count (select_all (token_matches client user revoked) d.access_tokens)), d)

  unfoldable pub create_access_token : CreateAccessTokenParams → M AccessToken
  create_access_token arg = statement e λ now id d.
      let row = new_access_token now id arg in
      if exists (λ r. str_eq r.token_hash arg.token_hash || r.id == id) d.access_tokens
      then (err unique_violation, d)
      else (ok row, set_access_tokens d (row ∷ d.access_tokens))

  unfoldable pub get_access_token : String → M AccessToken
  get_access_token hash =
      statement e
        λ now id d. (one_row (select_first (λ r. str_eq r.token_hash hash) d.access_tokens), d)

  unfoldable pub get_access_token_by_id : Uuid → M AccessToken
  get_access_token_by_id token =
      statement e λ now id d. (one_row (select_first (λ r. r.id == token) d.access_tokens), d)

  unfoldable pub revoke_access_token : Uuid → M (Unit {0})
  revoke_access_token token = statement e λ now id d.
      (ok tt, set_access_tokens d (update_where (λ r. r.id == token) set_revoked d.access_tokens))

  unfoldable pub revoke_access_tokens_by_client : Uuid → M (Unit {0})
  revoke_access_tokens_by_client client = statement e λ now id d. (
    ok tt,
    set_access_tokens d
        (update_where (λ r. same_client r.client_id client) set_revoked d.access_tokens),
  )

  unfoldable pub revoke_access_tokens_by_user : Uuid → M (Unit {0})
  revoke_access_tokens_by_user user = statement e λ now id d. (
    ok tt,
    set_access_tokens d (update_where (λ r. r.user_id == user) set_revoked d.access_tokens),
  )

  unfoldable pub delete_expired_access_tokens : M (Unit {0})
  delete_expired_access_tokens = statement e λ now id d.
      (ok tt, set_access_tokens d (select_all (λ r. not (ltb r.expires_at now)) d.access_tokens))
