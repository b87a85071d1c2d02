-- ===== src/Auth/Calls/SingleUse.antt =====
-- A refresh token is rotated at most once.
use goauth_server.Prelude.{◌≡◌, ◌≢◌, String, List}
use goauth_server.Model.{Uuid, RefreshToken}
use goauth_server.Environment.{Environment}
use goauth_server.Exec.{ok, World}
use goauth_server.Exec.Hoare.{
  Triple, Triple-bind, Triple-keeps, Triple-map_error, Triple-raise, Triple-weaken, Triple-if,
  Triple-at, Post-trivial,
}
use goauth_server.Exec.Keeps.{Keeps, Keeps-ignore}
use goauth_server.Repository.Frames.{On, refresh_rows}
use goauth_server.Password.{Unicode}
use goauth_server.Auth.Service.{Service, TokenResponse, sha256_hex, time_now, new_uuid}
use goauth_server.Auth.Rotation.{
  authenticate_client, handle_replay, issue_rotated, rotate_record, rotate_refresh_token,
}
use goauth_server.Auth.Authorization.{issue_refresh_token, redeem_code, exchange_code_for_token}
use goauth_server.Auth.Shrinks.{
  shrinks_rules, authenticate_client-Shrinks, handle_replay-Shrinks, generate_secure_token-Shrinks,
  issue_access_token-Shrinks, check_client-Shrinks, check_code-Shrinks, issue_code_token-Shrinks,
  revoke_any_token-Shrinks, revoke_raw_token-Shrinks, revoke_all_user_access_tokens-Shrinks,
  revoke_user_refresh_tokens-Shrinks, store_direct_login_token-Shrinks, verify_credentials-Shrinks,
  change_password-Shrinks,
}
use goauth_server.Auth.Calls.{
  Call, exchange, rotate, revoke_any, revoke_raw, revoke_user_access, revoke_user_refresh,
  store_login, login, change, handle, serve, serve_induction,
}
use goauth_server.Auth.Calls.Dead.{
  Dead, Held, Held-Ages, Dead-Shrinks, create_refresh_token-Dead, get_refresh_token_by_hash-Held,
  get_refresh_token_by_hash-Dead, mark_refresh_token_used-Dead,
}

ruleset dead_rules = (
  shrinks_rules, Held-Ages, Dead-Shrinks, create_refresh_token-Dead, authenticate_client-Shrinks,
  handle_replay-Shrinks, generate_secure_token-Shrinks, issue_access_token-Shrinks,
  check_client-Shrinks, check_code-Shrinks, issue_code_token-Shrinks,
)

module _ (e : Environment) (s : Service) (hash : String) where
  issue_rotated-Dead :
      (old : RefreshToken) (cid user access_token_id : Uuid)
      → Keeps (On refresh_rows (Dead hash)) (issue_rotated e s old cid user access_token_id)
  unfolding issue_rotated time_now
  issue_rotated-Dead old cid user access_token_id = search dead_rules depth 12

  rotate_record-Dead :
      (old : RefreshToken) (cid : Uuid)
      → Keeps (On refresh_rows (Dead hash)) (rotate_record e s old cid)
  unfolding rotate_record time_now
  rotate_record-Dead old cid = search (dead_rules, issue_rotated-Dead) depth 12

  rotate_refresh_token-Dead :
      (raw_token client_id client_secret : String)
      → Keeps
          (On refresh_rows (Dead hash))
          (rotate_refresh_token e s raw_token client_id client_secret)
  unfolding rotate_refresh_token
  rotate_refresh_token-Dead raw_token client_id client_secret =
      search (dead_rules, rotate_record-Dead) depth 12

  exchange_code_for_token-Dead :
      (code : String) (client_id : Uuid) (client_secret redirect_uri : String)
      → Keeps
          (On refresh_rows (Dead hash))
          (exchange_code_for_token e s code client_id client_secret redirect_uri)
  unfolding exchange_code_for_token redeem_code issue_refresh_token time_now new_uuid
  exchange_code_for_token-Dead code client_id client_secret redirect_uri =
      search dead_rules depth 20

  module _ (u : Unicode) where
    handle-Dead : (c : Call) → Keeps (On refresh_rows (Dead hash)) (handle e s u c)
    unfolding handle
    handle-Dead (exchange code client_id client_secret redirect_uri) =
        Keeps-ignore _ (exchange_code_for_token-Dead code client_id client_secret redirect_uri)
    handle-Dead (rotate raw_token client_id client_secret) =
        Keeps-ignore _ (rotate_refresh_token-Dead raw_token client_id client_secret)
    handle-Dead (revoke_any raw_token hint) =
        Keeps-ignore _ (revoke_any_token-Shrinks (Dead-Shrinks hash) e s raw_token hint)
    handle-Dead (revoke_raw raw_token) =
        Keeps-ignore _ (revoke_raw_token-Shrinks (Dead-Shrinks hash) e s raw_token)
    handle-Dead (revoke_user_access user) =
        Keeps-ignore _ (revoke_all_user_access_tokens-Shrinks (Dead-Shrinks hash) e s user)
    handle-Dead (revoke_user_refresh user reason) =
        Keeps-ignore _ (revoke_user_refresh_tokens-Shrinks (Dead-Shrinks hash) e s user reason)
    handle-Dead (store_login token user) =
        Keeps-ignore _ (store_direct_login_token-Shrinks (Dead-Shrinks hash) e s token user)
    handle-Dead (login email password source_ip) =
        Keeps-ignore _ (verify_credentials-Shrinks (Dead-Shrinks hash) e s email password source_ip)
    handle-Dead (change user new_password) =
        Keeps-ignore _ (change_password-Shrinks (Dead-Shrinks hash) e s u user new_password)

    -- A refresh token that is in the table and revoked is so after every sequence of calls.
    pub serve-Dead :
        (calls : List Call) (w : World)
        → On refresh_rows (Dead hash) w
        → On refresh_rows (Dead hash) (serve e s u calls w)
    serve-Dead = serve_induction e s u handle-Dead

module _ (e : Environment) (s : Service) (raw_token : String) where
  -- The replay branch returns no token.
  handle_replay_fails :
      (old : RefreshToken) (Q : TokenResponse → World → Type 0)
      → Triple
          (On refresh_rows (Dead (sha256_hex e raw_token)))
          (handle_replay e s old)
          Q
          (λ r w. Unit {0})
  unfolding handle_replay
  handle_replay_fails old Q =
      Triple-bind _ _ _ (Triple-keeps _ (search dead_rules) (λ w p. tt)) λ _.
        Triple-bind _ _ _ (Triple-keeps _ (search dead_rules) (λ w p. tt)) λ _.
          Triple-bind _ _ _ (Triple-keeps _ (search dead_rules) (λ w p. tt))
            λ _. Triple-raise _ (λ w p. tt)

  Dead-refused :
      (client_id client_secret : String)
      → Triple
          (On refresh_rows (Dead (sha256_hex e raw_token)))
          (rotate_refresh_token e s raw_token client_id client_secret)
          (λ a w. ⊥)
          (λ r w. Unit {0})
  unfolding rotate_refresh_token
  Dead-refused client_id client_secret =
      Triple-bind _ _ _
        (Triple-keeps _ (authenticate_client-Shrinks (Dead-Shrinks _) e s client_id client_secret)
          (λ w p. tt))
        λ cid.
          Triple-bind _ _ _ (get_refresh_token_by_hash-Dead e (sha256_hex e raw_token) _) λ old.
            Triple-if old.is_revoked _ _
              (λ h. Triple-weaken _ (λ w p. p.1) (handle_replay_fails old _))
              (λ h. record { run = λ w p. cc (h, p.0) })

  -- A rotation that returns tokens leaves the token that was presented revoked.
  rotate_record-Held :
      (old : RefreshToken) (cid : Uuid)
      → Triple
          (On refresh_rows (Held (sha256_hex e raw_token) old))
          (rotate_record e s old cid)
          (λ a. On refresh_rows (Dead (sha256_hex e raw_token)))
          (λ r w. Unit {0})
  unfolding rotate_record time_now
  rotate_record-Held old cid =
      Triple-bind _ _ _ (Triple-keeps _ (search dead_rules) (λ w p. tt)) λ now.
        Triple-bind _ _ _ (Triple-keeps _ (search dead_rules) (λ w p. tt)) λ _.
          Triple-bind _ _ _ (Triple-keeps _ (search dead_rules) (λ w p. tt)) λ _.
            Triple-bind _ _ _ (Triple-map_error _ _ (mark_refresh_token_used-Dead e _ old))
              λ _. Triple-keeps _ (search (dead_rules, issue_rotated-Dead) depth 12) (λ w p. tt)

  rotated-Dead :
      (client_id client_secret : String)
      → Triple
          (λ w. Unit {0})
          (rotate_refresh_token e s raw_token client_id client_secret)
          (λ a. On refresh_rows (Dead (sha256_hex e raw_token)))
          (λ r w. Unit {0})
  unfolding rotate_refresh_token
  rotated-Dead client_id client_secret =
      Triple-bind (λ cid w. Unit {0}) _ _
        (record { run = λ w p. Post-trivial (authenticate_client e s client_id client_secret w) })
        λ cid.
          Triple-bind _ _ _ (get_refresh_token_by_hash-Held e (sha256_hex e raw_token) _) λ old.
            Triple-if old.is_revoked _ _
              (λ h.
                Triple-weaken _
                  (λ w p. record {
                    holds = record { token = old; found = p.holds.found; revoked = h };
                  })
                  (handle_replay_fails old _))
              (λ h. rotate_record-Held old cid)

module _ (e : Environment) (s : Service) (u : Unicode) where
  -- Once a refresh token was presented and tokens were returned for it, no later presentation of it,
  -- by whatever client and after whatever calls, returns tokens.
  pub rotate_once :
      (raw_token client_id client_secret : String) (w : World) (first : TokenResponse)
      → (rotate_refresh_token e s raw_token client_id client_secret w).0 ≡ ok first
      → (calls : List Call) (client_id' client_secret' : String) (second : TokenResponse)
      → (rotate_refresh_token e s raw_token client_id' client_secret'
          (serve e s u calls (rotate_refresh_token e s raw_token client_id client_secret w).1)).0
        ≢ ok second
  rotate_once raw_token client_id client_secret w first h calls client_id' client_secret' second
        h' =
      Triple-at (Dead-refused e s raw_token client_id' client_secret') _ second
        (serve-Dead e s (sha256_hex e raw_token) u calls _
          (Triple-at (rotated-Dead e s raw_token client_id client_secret) w first tt h))
        h'
