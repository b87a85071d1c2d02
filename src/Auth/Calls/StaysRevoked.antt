-- ===== src/Auth/Calls/StaysRevoked.antt =====
-- An access token that was revoked counts as revoked ever after.
use goauth_server.Prelude.{◌≡◌, ◌≢◌, String, false, List, Bool-cases, inl, inr, arith}
use goauth_server.Environment.{Environment}
use goauth_server.Exec.{ok, World, statement, attempt, ◌>>=◌, pure, raise}
use goauth_server.Exec.Hoare.{Triple, Triple-bind, Triple-map_error, Triple-at}
use goauth_server.Exec.Facts.{Any}
use goauth_server.Repository.AccessTokens.{get_access_token}
use goauth_server.Repository.Frames.{On, access_rows}
use goauth_server.Repository.Blind.{frame_rules}
use goauth_server.Password.{Unicode}
use goauth_server.Auth.Service.{Service, sha256_hex}
use goauth_server.Auth.Revoke.{revoke_token, revoke_raw_token, token_revoked, is_token_revoked}
use goauth_server.Auth.Revoke.Revoked.{
  Revoked, Revoked-Ages, create_access_token-Revoked, revoke_access_token-Revoked,
  revoke_access_tokens_by_user-Revoked, revoke_access_token-Held, get_access_token-Held,
}
use goauth_server.Auth.Calls.{Call, serve, serve_induction}
use goauth_server.Auth.Calls.Stable.{Stable, handle-Stable}

pub ruleset revoked_rules = (
  frame_rules, Revoked-Ages, create_access_token-Revoked, revoke_access_token-Revoked,
  revoke_access_tokens_by_user-Revoked,
)

pub Revoked-Stable : (e : Environment) (hash : String) → Stable e access_rows (Revoked hash)
Revoked-Stable e hash = record {
  ages = Revoked-Ages hash;
  access_created = λ x. search revoked_rules;
  access_revoked = λ x. search revoked_rules;
  user_access_revoked = λ x. search revoked_rules;
  code_used = λ x. search revoked_rules;
  refresh_created = λ x. search revoked_rules;
  refresh_used = λ x. search revoked_rules;
  refresh_revoked = λ x y. search revoked_rules;
  family_revoked = λ x y. search revoked_rules;
  user_refresh_revoked = λ x y. search revoked_rules;
  failure_counted = λ x. search revoked_rules;
  locked = λ x y. search revoked_rules;
  failures_reset = λ x. search revoked_rules;
  login_recorded = λ x y. search revoked_rules;
  flag_set = λ x y. search revoked_rules;
  hash_set = λ x y. search revoked_rules;
  logged = λ x y. search revoked_rules;
}

module _ (e : Environment) (raw_token : String) where
  pub revoke_raw_token-Revoked :
      Triple
        (λ w. Unit {0})
        (revoke_raw_token e raw_token)
        (λ a. On access_rows (Revoked (sha256_hex e raw_token)))
        Any
  unfolding revoke_raw_token revoke_token
  revoke_raw_token-Revoked =
      Triple-bind _ _ _ (get_access_token-Held e (sha256_hex e raw_token) _)
        λ token. Triple-map_error _ _ (revoke_access_token-Held e (sha256_hex e raw_token) token)

  -- The search for a token that is revoked finds it or fails, so that it never counts as live.
  pub Revoked-reported :
      (w : World)
      → On access_rows (Revoked (sha256_hex e raw_token)) w
      → (is_token_revoked e raw_token w).0 ≢ ok false
  unfolding is_token_revoked get_access_token statement attempt ◌>>=◌ token_revoked access_rows pure
      raise
  Revoked-reported w p h = elim (Bool-cases (e.fails w.tick)) [
    | inl fault ↦ absurd (ground (arith, fault, h))
    | inr served ↦ absurd (ground (arith, served, p.holds.found, p.holds.revoked, h))
  ]

-- After a revocation that returned without an error, and whatever calls follow, the token is never
-- reported as not revoked.
pub revoked_forever :
    (e : Environment) (s : Service) (u : Unicode) (raw_token : String) (w : World)
    → (revoke_raw_token e raw_token w).0 ≡ ok tt
    → (calls : List Call)
    → (is_token_revoked e raw_token (serve e s u calls (revoke_raw_token e raw_token w).1)).0
      ≢ ok false
revoked_forever e s u raw_token w h calls = Revoked-reported e raw_token _ (
    serve_induction e s u (handle-Stable e s (Revoked-Stable e (sha256_hex e raw_token)) u) calls _
      (Triple-at (revoke_raw_token-Revoked e raw_token) w tt tt h))
