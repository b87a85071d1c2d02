-- ===== src/Auth/Rotation/Retires.antt =====
-- The updates of the table of refresh tokens: each marks rows as revoked and revives none. What such
-- updates keep, and time, is kept by every query that adds no row.
use goauth_server.Prelude.{ℕ, ◌+◌, ◌≡◌, refl, true, String, Bool, Option, List, update_where}
use goauth_server.Model.{Uuid, Time, RefreshToken}
use goauth_server.Environment.{Environment}
use goauth_server.Exec.Keeps.{Keeps, Ages, Keeps-statement}
use goauth_server.Repository.RefreshTokens.{
  mark_refresh_token_used, revoke_refresh_token, revoke_refresh_token_family,
  revoke_refresh_tokens_by_user, mark_used, mark_revoked,
}
use goauth_server.Repository.Frames.{On, On-Ages, refresh_rows}

-- The row is revoked after the update, and is the same token.
pub record Retires (f : RefreshToken → RefreshToken) : Type 0 where
  pub family : (r : RefreshToken) → (f r).token_family_id ≡ r.token_family_id
  pub hash : (r : RefreshToken) → (f r).token_hash ≡ r.token_hash
  pub revoked : (r : RefreshToken) → (f r).is_revoked ≡ true

pub mark_used-Retires : (t : Time) → Retires (mark_used t)
unfolding mark_used
mark_used-Retires t = record { family = λ r. refl; hash = λ r. refl; revoked = λ r. refl }

pub mark_revoked-Retires : (t : Time) (reason : Option String) → Retires (mark_revoked t reason)
unfolding mark_revoked
mark_revoked-Retires t reason = record { family = λ r. refl; hash = λ r. refl; revoked = λ r. refl }

-- `P` is kept by time and by the updates.
pub record Shrinks (P : ℕ → List RefreshToken → Type 0) : Type 0 where
  pub ages : (t : ℕ) (rows : List RefreshToken) → P t rows → P (t + 1) rows
  pub retires :
      (f : RefreshToken → RefreshToken)
      → Retires f
      → (p : RefreshToken → Bool) (t : ℕ) (rows : List RefreshToken) → P t rows
      → P (t + 1) (update_where p f rows)

module _ {P : ℕ → List RefreshToken → Type 0} (shrinks : Shrinks P) where
  pub Shrinks-Ages : Ages (On refresh_rows P)
  Shrinks-Ages = On-Ages _ _ shrinks.ages

  module _ (e : Environment) where
    pub mark_refresh_token_used-Shrinks :
        (i : Uuid) → Keeps (On refresh_rows P) (mark_refresh_token_used e i)
    unfolding mark_refresh_token_used refresh_rows
    mark_refresh_token_used-Shrinks i =
        Keeps-statement e _ Shrinks-Ages
          λ w p. record { holds = shrinks.retires _ (mark_used-Retires _) _ _ _ p.holds }

    pub revoke_refresh_token-Shrinks :
        (i : Uuid) (reason : Option String)
        → Keeps (On refresh_rows P) (revoke_refresh_token e i reason)
    unfolding revoke_refresh_token refresh_rows
    revoke_refresh_token-Shrinks i reason =
        Keeps-statement e _ Shrinks-Ages
          λ w p. record { holds = shrinks.retires _ (mark_revoked-Retires _ _) _ _ _ p.holds }

    pub revoke_refresh_token_family-Shrinks :
        (family : Uuid) (reason : Option String)
        → Keeps (On refresh_rows P) (revoke_refresh_token_family e family reason)
    unfolding revoke_refresh_token_family refresh_rows
    revoke_refresh_token_family-Shrinks family reason =
        Keeps-statement e _ Shrinks-Ages
          λ w p. record { holds = shrinks.retires _ (mark_revoked-Retires _ _) _ _ _ p.holds }

    pub revoke_refresh_tokens_by_user-Shrinks :
        (user : Uuid) (reason : Option String)
        → Keeps (On refresh_rows P) (revoke_refresh_tokens_by_user e user reason)
    unfolding revoke_refresh_tokens_by_user refresh_rows
    revoke_refresh_tokens_by_user-Shrinks user reason =
        Keeps-statement e _ Shrinks-Ages
          λ w p. record { holds = shrinks.retires _ (mark_revoked-Retires _ _) _ _ _ p.holds }
