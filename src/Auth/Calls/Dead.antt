-- ===== src/Auth/Calls/Dead.antt =====
-- A refresh token that is revoked stays revoked whatever is called, and is never rotated. (No call
-- deletes a refresh token.)
use goauth_server.Prelude.{
  ℕ, ◌+◌, ◌≡◌, ap, ◌∙◌, Bool, true, false, ◌||◌, ◌==◌, ==_refl, str_eq, eq_iff, String, List, ◌∷◌,
  some, none, select_first, update_where, exists, arith, Option-cases, Bool-cases, inl, inr,
  if◌then◌else◌, select_first-update_where, exists-select_first, subst,
}
use mathlib.Core.Option
use goauth_server.Model.{RefreshToken}
use goauth_server.Environment.{Environment}
use goauth_server.Exec.{Error, map_error}
use goauth_server.Exec.Hoare.{Triple, Triple-map_error, Triple-statement}
use goauth_server.Exec.Keeps.{Keeps, Keeps-statement, Ages}
use goauth_server.Repository.RefreshTokens.{
  CreateRefreshTokenParams, create_refresh_token, new_refresh_token, get_refresh_token_by_hash,
  mark_refresh_token_used, mark_used,
}
use goauth_server.Repository.Frames.{On, On-Ages, refresh_rows}
use goauth_server.Auth.Rotation.Retires.{Retires, Shrinks, Shrinks-Ages, mark_used-Retires}

-- the test of the search by hash
abbrev pub has_hash : String → RefreshToken → Bool
has_hash hash r = str_eq r.token_hash hash

-- The token with the hash is in the table and revoked.
pub record Dead (hash : String) (t : ℕ) (rows : List RefreshToken) : Type 0 where
  pub token : RefreshToken
  pub found : select_first (has_hash hash) rows ≡ some token
  pub revoked : token.is_revoked ≡ true

-- The search by the hash finds `old`.
pub record Held (hash : String) (old : RefreshToken) (t : ℕ) (rows : List RefreshToken)
    : Type 0 where
  pub found : select_first (has_hash hash) rows ≡ some old

pub Held-Ages : (hash : String) (old : RefreshToken) → Ages (On refresh_rows (Held hash old))
Held-Ages hash old = On-Ages _ _ λ t rows p. record { found = p.found }

module _ {f : RefreshToken → RefreshToken} (retires : Retires f) (hash : String) where
  -- The search by a hash commutes with an update that retires.
  find-update_where :
      (q : RefreshToken → Bool) (rows : List RefreshToken) (old : RefreshToken)
      → select_first (has_hash hash) rows ≡ some old
      → select_first (has_hash hash) (update_where q f rows) ≡ some (if q old then f old else old)
  find-update_where q rows old found =
      select_first-update_where (has_hash hash) q f rows (λ r. rw retires.hash)
      ∙ ap (Option.map (λ r. if q r then f r else r)) found

pub Dead-Shrinks : (hash : String) → Shrinks (Dead hash)
Dead-Shrinks hash = record {
  ages = λ t rows p. record { token = p.token; found = p.found; revoked = p.revoked };
  retires = λ f r q t rows p. record {
    token = if q p.token then f p.token else p.token;
    found = find-update_where r hash q rows p.token p.found;
    revoked = ground (arith, r.revoked p.token, p.revoked);
  };
}

-- A token that is added has a new hash.
Dead-cons :
    (hash : String) (t now id : ℕ) (arg : CreateRefreshTokenParams) (rows : List RefreshToken)
    → exists (λ r. str_eq r.token_hash arg.token_hash || r.id == id) rows ≡ false
    → Dead hash t rows
    → Dead hash (t + 1) (new_refresh_token now id arg ∷ rows)
unfolding select_first new_refresh_token
Dead-cons hash t now id arg rows free p = elim (Bool-cases (str_eq arg.token_hash hash)) [
  | inl same ↦ cc (
    p.found,
    subst (λ h. select_first (has_hash h) rows ≡ none) ((eq_iff arg.token_hash hash).0 same)
        (exists-select_first (has_hash arg.token_hash) (λ r. r.id == id) rows free),
  )
  | inr other ↦ record { token = p.token; found = rw other p.found; revoked = p.revoked }
]

module _ (e : Environment) (hash : String) where
  pub create_refresh_token-Dead :
      (arg : CreateRefreshTokenParams)
      → Keeps (On refresh_rows (Dead hash)) (create_refresh_token e arg)
  unfolding create_refresh_token refresh_rows
  create_refresh_token-Dead arg = Keeps-statement e _ (Shrinks-Ages (Dead-Shrinks hash)) λ w p.
      elim (Bool-cases (
        exists (λ r. str_eq r.token_hash arg.token_hash || r.id == e.uuid w.tick)
          w.db.refresh_tokens)) [
            | inl taken ↦ rw taken ((Shrinks-Ages (Dead-Shrinks hash)).at w p)
            | inr free ↦
                rw free (record {
                  holds = Dead-cons hash w.tick _ _ arg w.db.refresh_tokens free p.holds;
                })
          ]

  pub get_refresh_token_by_hash-Held :
      (g : Error → Error)
      → Triple
          (λ w. Unit {0})
          (map_error g (get_refresh_token_by_hash e hash))
          (λ old. On refresh_rows (Held hash old))
          (λ r w. Unit {0})
  unfolding get_refresh_token_by_hash refresh_rows
  get_refresh_token_by_hash-Held g = Triple-map_error g _ (
      Triple-statement e _ (λ w p. tt)
        λ w p. elim (Option-cases (select_first (has_hash hash) w.db.refresh_tokens)) [
          | inl nothing ↦ rw nothing tt
          | inr (old, it) ↦ rw it (record { holds = record { found = it } })
        ])

  pub get_refresh_token_by_hash-Dead :
      (g : Error → Error)
      → Triple
          (On refresh_rows (Dead hash))
          (map_error g (get_refresh_token_by_hash e hash))
          (λ old w. (old.is_revoked ≡ true) × On refresh_rows (Dead hash) w)
          (λ r w. Unit {0})
  unfolding get_refresh_token_by_hash refresh_rows
  get_refresh_token_by_hash-Dead g = Triple-map_error g _ (
      Triple-statement e _ (λ w p. tt)
        λ w p. rw p.holds.found (p.holds.revoked, (Shrinks-Ages (Dead-Shrinks hash)).at w p))

  pub mark_refresh_token_used-Dead :
      (old : RefreshToken)
      → Triple
          (On refresh_rows (Held hash old))
          (mark_refresh_token_used e old.id)
          (λ a. On refresh_rows (Dead hash))
          (λ r w. Unit {0})
  unfolding mark_refresh_token_used refresh_rows
  mark_refresh_token_used-Dead old =
      Triple-statement e _ (λ w p. tt)
        λ w p.
          let retires = mark_used-Retires (e.time w.tick) in
          record {
            holds = record {
              token = mark_used (e.time w.tick) old;
              found =
                  find-update_where retires hash (λ r. r.id == old.id) w.db.refresh_tokens old
                    p.holds.found
                  ∙ ap (λ b. some (if b then mark_used (e.time w.tick) old else old))
                      (==_refl old.id);
              revoked = retires.revoked old;
            };
          }
