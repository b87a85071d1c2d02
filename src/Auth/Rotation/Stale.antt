-- ===== src/Auth/Rotation/Stale.antt =====
-- Rotations that begin with the same row, as two requests do that both read it before either marks it.
use goauth_server.Prelude.{
  ℕ, ◌+◌, ◌≤◌, ◌≡◌, refl, true, false, not, ◌&&◌, ◌||◌, ◌==◌, ==_iff, str_eq, List, [], ◌∷◌, exists,
  update_where, arith, Bool-cases, inl, inr, if◌then◌else◌,
}
use goauth_server.Model.{Uuid, RefreshToken}
use goauth_server.Environment.{Environment}
use goauth_server.Exec.{World, ok}
use goauth_server.Exec.Hoare.{
  Triple, Triple-bind, Triple-keeps, Triple-map_error, Triple-pure, Triple-statement, Triple-at,
}
use goauth_server.Exec.Keeps.{Keeps, Keeps-statement, Ages, keeps_rules}
use goauth_server.Exec.Facts.{Any}
use goauth_server.Repository.RefreshTokens.{
  CreateRefreshTokenParams, create_refresh_token, new_refresh_token, mark_refresh_token_used,
  mark_used,
}
use goauth_server.Repository.Blind.{frame_rules}
use goauth_server.Repository.Frames.{On, On-Ages, refresh_rows}
use goauth_server.Auth.Service.{
  Service, TokenResponse, time_now, generate_access_token, generate_secure_token,
}
use goauth_server.Auth.Rotation.{issue_access_token, issue_rotated, rotate_record}
use goauth_server.Auth.Rotation.Family.{is_live, live}

-- how many live tokens the family of `old` has besides `old`
unfoldable others : RefreshToken → List RefreshToken → ℕ
others old [] = 0
others old (r ∷ rows) =
    (if is_live old.token_family_id r && not (r.id == old.id) then 1 else 0) + others old rows

others-live :
    (old : RefreshToken) (rows : List RefreshToken)
    → others old rows ≤ live old.token_family_id rows
unfolding others live
others-live old [] = omega arith
others-live old (r ∷ rows) = ground (arith, others-live old rows)

-- The row `old` is in the table, and `n` live tokens of its family besides.
record Crowded (old : RefreshToken) (n t : ℕ) (rows : List RefreshToken) : Type 0 where
  present : exists (λ r. r.id == old.id) rows ≡ true
  many : n ≤ others old rows

Crowded-Ages : (old : RefreshToken) (n : ℕ) → Ages (On refresh_rows (Crowded old n))
Crowded-Ages old n = On-Ages _ _ λ t rows p. record { present = p.present; many = p.many }

module _ (old : RefreshToken) (now : ℕ) where
  others-mark_used :
      (rows : List RefreshToken)
      → others old (update_where (λ r. r.id == old.id) (mark_used now) rows) ≡ others old rows
  unfolding others update_where mark_used
  others-mark_used [] = refl
  others-mark_used (r ∷ rows) = ground (arith, others-mark_used rows)

  exists-mark_used :
      (rows : List RefreshToken)
      → exists (λ r. r.id == old.id) (update_where (λ r. r.id == old.id) (mark_used now) rows)
        ≡ exists (λ r. r.id == old.id) rows
  unfolding exists update_where mark_used
  exists-mark_used [] = refl
  exists-mark_used (r ∷ rows) = ground (arith, exists-mark_used rows)

  -- A new row has another identifier.
  fresh_id :
      (id : Uuid) (hash : CreateRefreshTokenParams) (rows : List RefreshToken)
      → exists (λ r. str_eq r.token_hash hash.token_hash || r.id == id) rows ≡ false
      → exists (λ r. r.id == old.id) rows ≡ true
      → (id == old.id) ≡ false
  unfolding exists
  fresh_id id arg [] free here = cc
  fresh_id id arg (r ∷ rows) free here =
      ground (arith, free, here, fresh_id id arg rows, ==_iff r.id old.id, ==_iff id old.id)

module _ (e : Environment) (old : RefreshToken) (n : ℕ) where
  mark_refresh_token_used-Crowded :
      Keeps (On refresh_rows (Crowded old n)) (mark_refresh_token_used e old.id)
  unfolding mark_refresh_token_used refresh_rows
  mark_refresh_token_used-Crowded = Keeps-statement e _ (Crowded-Ages old n) λ w p. record {
    holds = record {
      present = rw (exists-mark_used old (e.time w.tick) w.db.refresh_tokens) p.holds.present;
      many = rw (others-mark_used old (e.time w.tick) w.db.refresh_tokens) p.holds.many;
    };
  }

  create_refresh_token-Crowded :
      (arg : CreateRefreshTokenParams)
      → arg.token_family_id ≡ old.token_family_id
      → Triple
          (On refresh_rows (Crowded old n))
          (create_refresh_token e arg)
          (λ a. On refresh_rows (Crowded old (n + 1)))
          Any
  unfolding create_refresh_token refresh_rows others exists new_refresh_token
  create_refresh_token-Crowded arg family =
      Triple-statement e _ (λ w p. tt)
        λ w p.
          elim (Bool-cases (
            exists (λ r. str_eq r.token_hash arg.token_hash || r.id == e.uuid w.tick)
              w.db.refresh_tokens)) [
                | inl taken ↦ rw taken tt
                | inr free ↦
                    let fresh =
                      fresh_id old (e.time w.tick) (e.uuid w.tick) arg w.db.refresh_tokens free
                        p.holds.present in
                    rw free (record {
                      holds = record {
                        present = ground (arith, p.holds.present);
                        many = ground (arith, p.holds.many, fresh, family);
                      };
                    })
              ]

ruleset crowded_rules = (keeps_rules, frame_rules, Crowded-Ages, mark_refresh_token_used-Crowded)

module _ (e : Environment) (s : Service) (old : RefreshToken) (n : ℕ) where
  issue_rotated-Crowded :
      (cid user access_token_id : Uuid)
      → Triple
          (On refresh_rows (Crowded old n))
          (issue_rotated e s old cid user access_token_id)
          (λ a. On refresh_rows (Crowded old (n + 1)))
          Any
  unfolding issue_rotated generate_secure_token time_now
  issue_rotated-Crowded cid user access_token_id =
      Triple-bind _ _ _ (Triple-keeps _ (search crowded_rules depth 9) (λ w p. tt)) λ value.
        Triple-bind _ _ _ (Triple-keeps _ (search crowded_rules) (λ w p. tt)) λ now.
          Triple-bind _ _ _ (Triple-map_error _ _ (create_refresh_token-Crowded e old n _ refl))
            λ row. Triple-keeps _ (search crowded_rules depth 9) (λ w p. tt)

  rotate_record-Crowded :
      (cid : Uuid)
      → Triple
          (On refresh_rows (Crowded old n))
          (rotate_record e s old cid)
          (λ a. On refresh_rows (Crowded old (n + 1)))
          Any
  unfolding rotate_record issue_access_token generate_access_token time_now
  rotate_record-Crowded cid =
      Triple-bind _ _ _ (Triple-keeps _ (search crowded_rules) (λ w p. tt)) λ now.
        Triple-bind _ _ _ (Triple-keeps _ (search crowded_rules) (λ w p. tt)) λ _.
          Triple-bind _ _ _ (Triple-keeps _ (search crowded_rules) (λ w p. tt)) λ _.
            Triple-bind _ _ _ (Triple-keeps _ (search crowded_rules) (λ w p. tt)) λ _.
              Triple-bind _ _ _ (Triple-keeps _ (search crowded_rules depth 15) (λ w p. tt))
                λ (token, user, access_token_id).
                  Triple-bind _ _ _ (issue_rotated-Crowded cid user access_token_id)
                    λ value. Triple-pure _ (λ w p. p)

-- When two rotations begin with the same row, whose identifier is in the table, and run one after the
-- other and both return tokens, the family has two live refresh tokens, or more.
pub stale_rotations :
    (e : Environment) (s : Service) (old : RefreshToken) (cid : Uuid) (w : World)
    (first second : TokenResponse)
    → exists (λ r. r.id == old.id) w.db.refresh_tokens ≡ true
    → (rotate_record e s old cid w).0 ≡ ok first
    → (rotate_record e s old cid (rotate_record e s old cid w).1).0 ≡ ok second
    → 2
      ≤ live old.token_family_id
          (rotate_record e s old cid (rotate_record e s old cid w).1).1.db.refresh_tokens
unfolding refresh_rows
stale_rotations e s old cid w first second here h h' =
    let p =
      Triple-at (rotate_record-Crowded e s old 0 cid) w first
        (record { holds = record { present = here; many = omega arith } }) h in
    let q = Triple-at (rotate_record-Crowded e s old 1 cid) _ second p h' in
    omega (
      arith,
      q.holds.many,
      others-live old
          (rotate_record e s old cid (rotate_record e s old cid w).1).1.db.refresh_tokens,
    )
