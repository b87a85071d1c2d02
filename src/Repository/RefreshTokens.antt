-- ===== src/Repository/RefreshTokens.antt =====
-- internal/repository/refresh_tokens.sql.go
use goauth_server.Prelude.{
  ℕ, String, true, false, not, ◌&&◌, ◌||◌, Option, none, some, List, ◌∷◌, ◌==◌, ltb, str_eq,
  if◌then◌else◌, select_first, select_all, update_where, exists,
}
use goauth_server.Model.{Uuid, Time, RefreshToken, Db}
use goauth_server.Environment.{Environment}
use goauth_server.Exec.{ok, err, M, statement, one_row, unique_violation}

pub record CreateRefreshTokenParams : Type 0 where
  pub token_hash : String
  pub token_family_id : Uuid
  pub client_id : Uuid
  pub user_id : Uuid
  pub access_token_id : Uuid
  pub previous_token_id : Option Uuid
  pub scope : String
  pub expires_at : Time

-- The row of an INSERT, with the column defaults.
unfoldable pub new_refresh_token : ℕ → ℕ → CreateRefreshTokenParams → RefreshToken
new_refresh_token now id arg = record {
  id = id;
  token_family_id = arg.token_family_id;
  token_hash = arg.token_hash;
  client_id = arg.client_id;
  user_id = arg.user_id;
  access_token_id = arg.access_token_id;
  previous_token_id = arg.previous_token_id;
  scope = arg.scope;
  expires_at = arg.expires_at;
  is_revoked = false;
  revoked_at = none;
  revoke_reason = none;
  used_at = none;
  created_at = now;
}

-- SET used_at = now(), is_revoked = true, revoke_reason = 'used'
unfoldable pub mark_used : Time → RefreshToken → RefreshToken
mark_used now r = record r { is_revoked = true; revoke_reason = some "used"; used_at = some now }

-- SET is_revoked = true, revoked_at = now(), revoke_reason = $2
unfoldable pub mark_revoked : Time → Option String → RefreshToken → RefreshToken
mark_revoked now reason r = record r {
  is_revoked = true;
  revoked_at = some now;
  revoke_reason = reason;
}

abbrev pub set_refresh_tokens : Db → List RefreshToken → Db
set_refresh_tokens d rows = record d { refresh_tokens = rows }

module _ (e : Environment) where
  unfoldable pub create_refresh_token : CreateRefreshTokenParams → M RefreshToken
  create_refresh_token arg = statement e λ now id d.
      let row = new_refresh_token now id arg in
      if exists (λ r. str_eq r.token_hash arg.token_hash || r.id == id) d.refresh_tokens
      then (err unique_violation, d)
      else (ok row, set_refresh_tokens d (row ∷ d.refresh_tokens))

  unfoldable pub get_refresh_token_by_hash : String → M RefreshToken
  get_refresh_token_by_hash hash =
      statement e
        λ now id d. (one_row (select_first (λ r. str_eq r.token_hash hash) d.refresh_tokens), d)

  unfoldable pub get_refresh_token_by_id : Uuid → M RefreshToken
  get_refresh_token_by_id token =
      statement e λ now id d. (one_row (select_first (λ r. r.id == token) d.refresh_tokens), d)

  unfoldable pub mark_refresh_token_used : Uuid → M (Unit {0})
  mark_refresh_token_used token = statement e λ now id d. (
    ok tt,
    set_refresh_tokens d (update_where (λ r. r.id == token) (mark_used now) d.refresh_tokens),
  )

  unfoldable pub revoke_refresh_token : Uuid → Option String → M (Unit {0})
  revoke_refresh_token token reason = statement e λ now id d. (
    ok tt,
    set_refresh_tokens d
        (update_where (λ r. r.id == token) (mark_revoked now reason) d.refresh_tokens),
  )

  unfoldable pub revoke_refresh_token_family : Uuid → Option String → M (Unit {0})
  revoke_refresh_token_family family reason = statement e λ now id d. (
    ok tt,
    set_refresh_tokens d (
        update_where (λ r. r.token_family_id == family) (mark_revoked now reason) d.refresh_tokens),
  )

  unfoldable pub revoke_refresh_tokens_by_user : Uuid → Option String → M (Unit {0})
  revoke_refresh_tokens_by_user user reason = statement e λ now id d. (
    ok tt,
    set_refresh_tokens d (
        update_where (λ r. r.user_id == user && not r.is_revoked) (mark_revoked now reason)
          d.refresh_tokens),
  )

  unfoldable pub delete_expired_refresh_tokens : M (Unit {0})
  delete_expired_refresh_tokens = statement e λ now id d.
      (ok tt, set_refresh_tokens d (select_all (λ r. not (ltb r.expires_at now)) d.refresh_tokens))
