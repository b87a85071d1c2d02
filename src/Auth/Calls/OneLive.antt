-- ===== src/Auth/Calls/OneLive.antt =====
-- No sequence of calls leaves two live refresh tokens in one family, provided that `uuid.New` never
-- gives a value twice.
use goauth_server.Prelude.{
  ℕ, ◌≡◌, Bool, false, str_eq, String, List, select_first, arith, Option-cases, inl, inr,
}
use goauth_server.Model.{Uuid, RefreshToken, AuthorizationCode}
use goauth_server.Environment.{Environment}
use goauth_server.Exec.{Error, World, map_error}
use goauth_server.Exec.Hoare.{
  Triple, Triple-bind, Triple-keeps, Keeps-triple, Triple-map_error, Triple-pure, Triple-weaken,
  Triple-if, Triple-statement, Triple-ask,
}
use goauth_server.Exec.Keeps.{Keeps, Keeps-bind, Keeps-ignore}
use goauth_server.Repository.RefreshTokens.{get_refresh_token_by_hash}
use goauth_server.Repository.Frames.{On, refresh_rows}
use goauth_server.Password.{Unicode}
use goauth_server.Auth.Service.{Service, sha256_hex, time_now, new_uuid}
use goauth_server.Auth.Rotation.{issue_rotated, rotate_record, rotate_refresh_token}
use goauth_server.Auth.Rotation.Single.{
  Single, Vacant, Found, Single-Ages, Vacant-Ages, Found-Ages, Single-Shrinks, Vacant-Shrinks,
  Found-rest, Vacant-rest, mark_refresh_token_used-Vacant, create_refresh_token-Single,
}
use goauth_server.Auth.Authorization.{issue_refresh_token, redeem_code, exchange_code_for_token}
use goauth_server.Auth.Shrinks.{
  shrinks_rules, authenticate_client-Shrinks, handle_replay-Shrinks, generate_secure_token-Shrinks,
  issue_access_token-Shrinks, check_client-Shrinks, check_code-Shrinks, issue_code_token-Shrinks,
  revoke_any_token-Shrinks, revoke_raw_token-Shrinks, revoke_all_user_access_tokens-Shrinks,
  revoke_user_refresh_tokens-Shrinks, store_direct_login_token-Shrinks, verify_credentials-Shrinks,
  change_password-Shrinks,
}
use goauth_server.Auth.Calls.{
  Call, exchange, rotate, revoke_any, revoke_raw, revoke_user_access, revoke_user_refresh,
  store_login, login, change, handle, serve, serve_induction,
}

ruleset one_live_rules = (
  shrinks_rules, Single-Ages, Vacant-Ages, Found-Ages, Single-Shrinks, Vacant-Shrinks,
  generate_secure_token-Shrinks, issue_access_token-Shrinks, check_client-Shrinks,
  check_code-Shrinks, issue_code_token-Shrinks,
)

module _ (e : Environment) (s : Service) where
  issue_rotated-Single :
      (old : RefreshToken) (cid user access_token_id : Uuid)
      → Triple
          (On refresh_rows (Vacant e old.token_family_id))
          (issue_rotated e s old cid user access_token_id)
          (λ a. On refresh_rows (Single e))
          (λ r. On refresh_rows (Single e))
  unfolding issue_rotated time_now
  issue_rotated-Single old cid user access_token_id =
      Triple-bind _ _ _ (Triple-keeps _ (search one_live_rules) (Vacant-rest e _)) λ value.
        Triple-bind _ _ _ (Triple-keeps _ (search one_live_rules) (Vacant-rest e _)) λ now.
          Triple-bind _ _ _ (Triple-map_error _ _ (create_refresh_token-Single e _))
            λ row. Triple-keeps _ (search one_live_rules depth 9) (λ w p. p)

  rotate_record-Single :
      (q : RefreshToken → Bool) (old : RefreshToken) (cid : Uuid)
      → old.is_revoked ≡ false
      → Triple
          (On refresh_rows (Found e q old))
          (rotate_record e s old cid)
          (λ a. On refresh_rows (Single e))
          (λ r. On refresh_rows (Single e))
  unfolding rotate_record time_now
  rotate_record-Single q old cid h =
      Triple-bind _ _ _ (Triple-keeps _ (search one_live_rules) (Found-rest e _ _)) λ now.
        Triple-bind _ _ _ (Triple-keeps _ (search one_live_rules) (Found-rest e _ _)) λ _.
          Triple-bind _ _ _ (Triple-keeps _ (search one_live_rules) (Found-rest e _ _)) λ _.
            Triple-bind _ _ _ (Triple-map_error _ _ (mark_refresh_token_used-Vacant e q old h)) λ _.
              Triple-bind _ _ _ (Triple-keeps _ (search one_live_rules) (Vacant-rest e _))
                λ (token, user, access_token_id).
                  Triple-bind _ _ _ (issue_rotated-Single old cid user access_token_id)
                    λ value. Triple-pure _ (λ w p. p)

  -- the test of the search by hash
  abbrev has_hash : String → RefreshToken → Bool
  has_hash hash r = str_eq r.token_hash hash

  get_refresh_token_by_hash-Found :
      (g : Error → Error) (hash : String)
      → Triple
          (On refresh_rows (Single e))
          (map_error g (get_refresh_token_by_hash e hash))
          (λ old. On refresh_rows (Found e (has_hash hash) old))
          (λ r. On refresh_rows (Single e))
  unfolding get_refresh_token_by_hash refresh_rows
  get_refresh_token_by_hash-Found g hash = Triple-map_error g _ (
      Triple-statement e _ (λ w p. (Single-Ages e).at w p)
        λ w p. elim (Option-cases (select_first (has_hash hash) w.db.refresh_tokens)) [
          | inl nothing ↦ rw nothing ((Single-Ages e).at w p)
          | inr (old, it) ↦
              rw it
                (record { holds = record { rest = ((Single-Ages e).at w p).holds; found = it } })
        ])

  rotate_refresh_token-Single :
      (raw_token client_id client_secret : String)
      → Keeps
          (On refresh_rows (Single e))
          (rotate_refresh_token e s raw_token client_id client_secret)
  unfolding rotate_refresh_token
  rotate_refresh_token-Single raw_token client_id client_secret =
      Keeps-bind _ _ (authenticate_client-Shrinks (Single-Shrinks e) e s client_id client_secret)
        λ cid. Keeps-triple _ (
          Triple-bind _ _ _ (get_refresh_token_by_hash-Found _ (sha256_hex e raw_token)) λ old.
            Triple-if old.is_revoked _ _
              (λ _.
                Triple-weaken _ (Found-rest e _ _)
                  (Triple-keeps _ (handle_replay-Shrinks (Single-Shrinks e) e s old) (λ w p. p)))
              (λ h. rotate_record-Single _ old cid h))

module _ (e : Environment) (s : Service) (u : Unicode)
    (distinct : (j k : ℕ) → e.uuid j ≡ e.uuid k → j ≡ k) where
  -- A family that `uuid.New` gives is vacant, and is not given again.
  new_uuid-Vacant :
      Triple
        (On refresh_rows (Single e))
        (new_uuid e)
        (λ family. On refresh_rows (Vacant e family))
        (λ r. On refresh_rows (Single e))
  unfolding new_uuid
  new_uuid-Vacant = Triple-ask e _ λ w p. record {
    holds = record {
      rest = ((Single-Ages e).at w p).holds;
      vacant = p.holds.fresh w.tick (omega arith);
      given = λ k h same. omega (arith, distinct k w.tick same);
    };
  }

  issue_refresh_token-Single :
      (c : AuthorizationCode) (client_id user access_token_id : Uuid)
      → Keeps
          (On refresh_rows (Single e))
          (issue_refresh_token e s c client_id user access_token_id)
  unfolding issue_refresh_token time_now
  issue_refresh_token-Single c client_id user access_token_id =
      Keeps-bind _ _ (search one_live_rules) λ value. Keeps-triple _ (
        Triple-bind _ _ _ new_uuid-Vacant λ family.
          Triple-bind _ _ _ (Triple-keeps _ (search one_live_rules) (Vacant-rest e _)) λ now.
            Triple-bind _ _ _ (Triple-map_error _ _ (create_refresh_token-Single e _))
              λ row. Triple-keeps _ (search one_live_rules depth 9) (λ w p. p))

  exchange_code_for_token-Single :
      (code : String) (client_id : Uuid) (client_secret redirect_uri : String)
      → Keeps
          (On refresh_rows (Single e))
          (exchange_code_for_token e s code client_id client_secret redirect_uri)
  unfolding exchange_code_for_token redeem_code
  exchange_code_for_token-Single code client_id client_secret redirect_uri =
      search (one_live_rules, issue_refresh_token-Single) depth 20

  handle-Single : (c : Call) → Keeps (On refresh_rows (Single e)) (handle e s u c)
  unfolding handle
  handle-Single (exchange code client_id client_secret redirect_uri) =
      Keeps-ignore _ (exchange_code_for_token-Single code client_id client_secret redirect_uri)
  handle-Single (rotate raw_token client_id client_secret) =
      Keeps-ignore _ (rotate_refresh_token-Single e s raw_token client_id client_secret)
  handle-Single (revoke_any raw_token hint) =
      Keeps-ignore _ (revoke_any_token-Shrinks (Single-Shrinks e) e s raw_token hint)
  handle-Single (revoke_raw raw_token) =
      Keeps-ignore _ (revoke_raw_token-Shrinks (Single-Shrinks e) e s raw_token)
  handle-Single (revoke_user_access user) =
      Keeps-ignore _ (revoke_all_user_access_tokens-Shrinks (Single-Shrinks e) e s user)
  handle-Single (revoke_user_refresh user reason) =
      Keeps-ignore _ (revoke_user_refresh_tokens-Shrinks (Single-Shrinks e) e s user reason)
  handle-Single (store_login token user) =
      Keeps-ignore _ (store_direct_login_token-Shrinks (Single-Shrinks e) e s token user)
  handle-Single (login email password source_ip) =
      Keeps-ignore _ (verify_credentials-Shrinks (Single-Shrinks e) e s email password source_ip)
  handle-Single (change user new_password) =
      Keeps-ignore _ (change_password-Shrinks (Single-Shrinks e) e s u user new_password)

  -- From a database in which each family has at most one live refresh token, and the families that
  -- `uuid.New` is yet to give have none, every sequence of calls, failing or not, leads to such a
  -- database, if `uuid.New` never gives a value twice.
  pub serve-Single :
      (calls : List Call) (w : World)
      → On refresh_rows (Single e) w
      → On refresh_rows (Single e) (serve e s u calls w)
  serve-Single = serve_induction e s u handle-Single
