-- ===== src/Auth/Rotation/Single.antt =====
-- At most one token of a family is live. The families that `uuid.New` is yet to give are empty.
use goauth_server.Prelude.{
  ℕ, ◌+◌, ◌≤◌, ◌≡◌, ◌≢◌, ap, Bool, false, ◌||◌, some, List, ◌∷◌, ◌==◌, ==_refl, ==_iff, arith,
  select_first, update_where, exists, str_eq, Bool-cases, inl, inr,
}
use goauth_server.Model.{Uuid, RefreshToken}
use goauth_server.Environment.{Environment}
use goauth_server.Exec.{World}
use goauth_server.Exec.Hoare.{Triple, Triple-statement}
use goauth_server.Exec.Keeps.{Ages}
use goauth_server.Repository.RefreshTokens.{
  CreateRefreshTokenParams, create_refresh_token, new_refresh_token, mark_refresh_token_used,
}
use goauth_server.Repository.Frames.{On, On-Ages, refresh_rows}
use goauth_server.Auth.Rotation.Retires.{Retires, Shrinks, Shrinks-Ages, mark_used-Retires}
use goauth_server.Auth.Rotation.Family.{live, live-update_where-le, live-update_where-lt}

module _ (e : Environment) where
  pub record Single (t : ℕ) (rows : List RefreshToken) : Type 0 where
    pub single : (family : Uuid) → live family rows ≤ 1
    pub fresh : (k : ℕ) → t ≤ k → live (e.uuid k) rows ≡ 0

  -- The family has no live token, and will not be given by `uuid.New`.
  pub record Vacant (family : Uuid) (t : ℕ) (rows : List RefreshToken) : Type 0 where
    pub rest : Single t rows
    pub vacant : live family rows ≡ 0
    pub given : (k : ℕ) → t ≤ k → e.uuid k ≢ family

  -- The search by `q` finds `old`.
  pub record Found (q : RefreshToken → Bool) (old : RefreshToken) (t : ℕ) (rows : List RefreshToken)
      : Type 0 where
    pub rest : Single t rows
    pub found : select_first q rows ≡ some old

  module _ {f : RefreshToken → RefreshToken} (retires : Retires f) (p : RefreshToken → Bool) where
    Single-update_where :
        {t : ℕ} {rows : List RefreshToken} → Single t rows → Single (t + 1) (update_where p f rows)
    Single-update_where {rows = rows} s = record {
      single = λ family. omega (arith, s.single family, live-update_where-le retires p family rows);
      fresh = λ k h.
          omega (arith, s.fresh k (omega arith), live-update_where-le retires p (e.uuid k) rows);
    }

  pub Single-Shrinks : Shrinks Single
  Single-Shrinks = record {
    ages = λ t rows p. record { single = p.single; fresh = λ k h. p.fresh k (omega arith) };
    retires = λ f r p t rows s. Single-update_where r p s;
  }

  pub Vacant-Shrinks : (family : Uuid) → Shrinks (Vacant family)
  Vacant-Shrinks family = record {
    ages = λ t rows p. record {
      rest = record { single = p.rest.single; fresh = λ k h. p.rest.fresh k (omega arith) };
      vacant = p.vacant;
      given = λ k h. p.given k (omega arith);
    };
    retires = λ f r q t rows p. record {
      rest = Single-update_where r q p.rest;
      vacant = omega (arith, p.vacant, live-update_where-le r q family rows);
      given = λ k h. p.given k (omega arith);
    };
  }

  pub Single-Ages : Ages (On refresh_rows Single)
  Single-Ages = Shrinks-Ages Single-Shrinks

  pub Vacant-Ages : (family : Uuid) → Ages (On refresh_rows (Vacant family))
  Vacant-Ages family = Shrinks-Ages (Vacant-Shrinks family)

  pub Found-Ages :
      (q : RefreshToken → Bool) (old : RefreshToken) → Ages (On refresh_rows (Found q old))
  Found-Ages q old = On-Ages _ _ λ t rows p. record {
    rest = record { single = p.rest.single; fresh = λ k h. p.rest.fresh k (omega arith) };
    found = p.found;
  }

  pub Vacant-rest :
      (family : Uuid) (w : World) → On refresh_rows (Vacant family) w → On refresh_rows Single w
  Vacant-rest family w p = record { holds = p.holds.rest }

  pub Found-rest :
      (q : RefreshToken → Bool) (old : RefreshToken) (w : World)
      → On refresh_rows (Found q old) w
      → On refresh_rows Single w
  Found-rest q old w p = record { holds = p.holds.rest }

  -- A new token of a vacant family is its only live one.
  Vacant-cons :
      (t now id : ℕ) (arg : CreateRefreshTokenParams) (rows : List RefreshToken)
      → Vacant arg.token_family_id t rows
      → Single (t + 1) (new_refresh_token now id arg ∷ rows)
  unfolding live new_refresh_token
  Vacant-cons t now id arg rows v = record {
    single =
        λ family. ground (arith, v.rest.single family, v.vacant, ==_iff arg.token_family_id family);
    fresh = λ k h. ground (
      arith,
      v.rest.fresh k (omega arith),
      v.given k (omega arith),
      ==_iff arg.token_family_id (e.uuid k),
    );
  }

  pub create_refresh_token-Single :
      (arg : CreateRefreshTokenParams)
      → Triple
          (On refresh_rows (Vacant arg.token_family_id))
          (create_refresh_token e arg)
          (λ a. On refresh_rows Single)
          (λ r. On refresh_rows Single)
  unfolding create_refresh_token refresh_rows
  create_refresh_token-Single arg =
      Triple-statement e _
        (λ w v. record { holds = ((Vacant-Ages arg.token_family_id).at w v).holds.rest })
        λ w v.
          elim (Bool-cases (
            exists (λ r. str_eq r.token_hash arg.token_hash || r.id == e.uuid w.tick)
              w.db.refresh_tokens)) [
                | inl taken ↦
                    rw taken
                      (record { holds = ((Vacant-Ages arg.token_family_id).at w v).holds.rest })
                | inr free ↦
                    rw free
                      (record { holds = Vacant-cons w.tick _ _ arg w.db.refresh_tokens v.holds })
              ]

  -- The family of the token that is marked is vacant then.
  pub mark_refresh_token_used-Vacant :
      (q : RefreshToken → Bool) (old : RefreshToken)
      → old.is_revoked ≡ false
      → Triple
          (On refresh_rows (Found q old))
          (mark_refresh_token_used e old.id)
          (λ a. On refresh_rows (Vacant old.token_family_id))
          (λ r. On refresh_rows Single)
  unfolding mark_refresh_token_used refresh_rows
  mark_refresh_token_used-Vacant q old live_ =
      Triple-statement e _ (λ w p. record { holds = ((Found-Ages q old).at w p).holds.rest })
        λ w p.
          let fewer =
            live-update_where-lt (mark_used-Retires (e.time w.tick)) (λ r. r.id == old.id) q old
              w.db.refresh_tokens (==_refl old.id) p.holds.found live_ in
          let one = p.holds.rest.single old.token_family_id in
          record {
            holds = record {
              rest = Single-update_where (mark_used-Retires (e.time w.tick)) _ p.holds.rest;
              vacant = omega (arith, fewer, one);
              given = λ k h same. omega (
                arith,
                fewer,
                p.holds.rest.fresh k (omega arith),
                ap (λ f. live f w.db.refresh_tokens) same,
              );
            };
          }
