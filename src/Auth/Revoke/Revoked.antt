-- ===== src/Auth/Revoke/Revoked.antt =====
-- An access token that is revoked stays so under every statement. (No call deletes an access token.)
use goauth_server.Prelude.{
  ℕ, ◌+◌, ◌≡◌, refl, ap, ◌∙◌, subst, Bool, true, false, ◌||◌, ◌==◌, ==_refl, str_eq, eq_iff,
  is_true, String, List, ◌∷◌, some, none, select_first, update_where, exists, arith, if◌then◌else◌,
  Option-cases, Bool-cases, inl, inr, select_first-update_where, exists-select_first,
}
use mathlib.Core.Option
use goauth_server.Model.{Uuid, AccessToken}
use goauth_server.Environment.{Environment}
use goauth_server.Exec.{Error, map_error}
use goauth_server.Exec.Hoare.{Triple, Triple-map_error, Triple-statement}
use goauth_server.Exec.Keeps.{Keeps, Keeps-statement, Ages}
use goauth_server.Repository.AccessTokens.{
  CreateAccessTokenParams, create_access_token, new_access_token, get_access_token, set_revoked,
  revoke_access_token, revoke_access_tokens_by_user,
}
use goauth_server.Repository.Frames.{On, On-Ages, access_rows}

-- the test of the search by hash
abbrev pub has_hash : String → AccessToken → Bool
has_hash hash r = str_eq r.token_hash hash

-- The access token with the hash is in the table and revoked.
pub record Revoked (hash : String) (t : ℕ) (rows : List AccessToken) : Type 0 where
  pub token : AccessToken
  pub found : select_first (has_hash hash) rows ≡ some token
  pub revoked : is_true token.is_revoked ≡ true

-- The search by the hash finds `token`.
pub record Held (hash : String) (token : AccessToken) (t : ℕ) (rows : List AccessToken)
    : Type 0 where
  pub found : select_first (has_hash hash) rows ≡ some token

pub Revoked-Ages : (hash : String) → Ages (On access_rows (Revoked hash))
Revoked-Ages hash =
    On-Ages _ _ λ t rows p. record { token = p.token; found = p.found; revoked = p.revoked }

find-set_revoked :
    (hash : String) (q : AccessToken → Bool) (rows : List AccessToken) (token : AccessToken)
    → select_first (has_hash hash) rows ≡ some token
    → select_first (has_hash hash) (update_where q set_revoked rows)
      ≡ some (if q token then set_revoked token else token)
unfolding set_revoked
find-set_revoked hash q rows token found =
    select_first-update_where (has_hash hash) q set_revoked rows (λ r. refl)
    ∙ ap (Option.map (λ r. if q r then set_revoked r else r)) found

Revoked-update_where :
    (hash : String) (q : AccessToken → Bool) (t t' : ℕ) (rows : List AccessToken)
    → Revoked hash t rows
    → Revoked hash t' (update_where q set_revoked rows)
unfolding set_revoked
Revoked-update_where hash q t t' rows p = record {
  token = if q p.token then set_revoked p.token else p.token;
  found = find-set_revoked hash q rows p.token p.found;
  revoked = ground (arith, p.revoked);
}

-- A token that is added has a new hash.
Revoked-cons :
    (hash : String) (t now id : ℕ) (arg : CreateAccessTokenParams) (rows : List AccessToken)
    → exists (λ r. str_eq r.token_hash arg.token_hash || r.id == id) rows ≡ false
    → Revoked hash t rows
    → Revoked hash (t + 1) (new_access_token now id arg ∷ rows)
unfolding select_first new_access_token
Revoked-cons hash t now id arg rows free p = elim (Bool-cases (str_eq arg.token_hash hash)) [
  | inl same ↦ cc (
    p.found,
    subst (λ h. select_first (has_hash h) rows ≡ none) ((eq_iff arg.token_hash hash).0 same)
        (exists-select_first (has_hash arg.token_hash) (λ r. r.id == id) rows free),
  )
  | inr other ↦ record { token = p.token; found = rw other p.found; revoked = p.revoked }
]

module _ (e : Environment) (hash : String) where
  pub create_access_token-Revoked :
      (arg : CreateAccessTokenParams)
      → Keeps (On access_rows (Revoked hash)) (create_access_token e arg)
  unfolding create_access_token access_rows
  create_access_token-Revoked arg = Keeps-statement e _ (Revoked-Ages hash) λ w p.
      elim (Bool-cases (
        exists (λ r. str_eq r.token_hash arg.token_hash || r.id == e.uuid w.tick)
          w.db.access_tokens)) [
            | inl taken ↦ rw taken ((Revoked-Ages hash).at w p)
            | inr free ↦ rw free (record {
              holds = Revoked-cons hash w.tick _ _ arg w.db.access_tokens free p.holds;
            })
          ]

  pub revoke_access_token-Revoked :
      (i : Uuid) → Keeps (On access_rows (Revoked hash)) (revoke_access_token e i)
  unfolding revoke_access_token access_rows
  revoke_access_token-Revoked i =
      Keeps-statement e _ (Revoked-Ages hash)
        λ w p. record { holds = Revoked-update_where hash (λ r. r.id == i) _ _ _ p.holds }

  pub revoke_access_tokens_by_user-Revoked :
      (i : Uuid) → Keeps (On access_rows (Revoked hash)) (revoke_access_tokens_by_user e i)
  unfolding revoke_access_tokens_by_user access_rows
  revoke_access_tokens_by_user-Revoked i =
      Keeps-statement e _ (Revoked-Ages hash)
        λ w p. record { holds = Revoked-update_where hash (λ r. r.user_id == i) _ _ _ p.holds }

  -- The token that a search by the hash has found is revoked by its identifier.
  pub revoke_access_token-Held :
      (token : AccessToken)
      → Triple
          (On access_rows (Held hash token))
          (revoke_access_token e token.id)
          (λ a. On access_rows (Revoked hash))
          (λ r w. Unit {0})
  unfolding revoke_access_token access_rows set_revoked
  revoke_access_token-Held token =
      Triple-statement e _ (λ w p. tt)
        λ w p. record {
          holds = record {
            token = set_revoked token;
            found =
                find-set_revoked hash (λ r. r.id == token.id) w.db.access_tokens token p.holds.found
                ∙ ap (λ b. some (if b then set_revoked token else token)) (==_refl token.id);
            revoked = refl;
          };
        }

  pub get_access_token-Held :
      (g : Error → Error)
      → Triple
          (λ w. Unit {0})
          (map_error g (get_access_token e hash))
          (λ token. On access_rows (Held hash token))
          (λ r w. Unit {0})
  unfolding get_access_token access_rows
  get_access_token-Held g = Triple-map_error g _ (
      Triple-statement e _ (λ w p. tt)
        λ w p. elim (Option-cases (select_first (has_hash hash) w.db.access_tokens)) [
          | inl nothing ↦ rw nothing tt
          | inr (token, it) ↦ rw it (record { holds = record { found = it } })
        ])
