-- ===== src/Auth/Authorization/Spent.antt =====
-- An authorization code that is marked as used stays so whatever is called. (No call stores or deletes
-- a code.)
use goauth_server.Prelude.{
  ℕ, ◌≡◌, refl, ap, ◌∙◌, Bool, true, ◌==◌, ==_refl, str_eq, String, List, some, is_some,
  select_first, update_where, arith, if◌then◌else◌, select_first-update_where, Option-cases, inl,
  inr,
}
use mathlib.Core.Option
use goauth_server.Model.{Uuid, Time, AuthorizationCode}
use goauth_server.Environment.{Environment}
use goauth_server.Exec.{Error, map_error}
use goauth_server.Exec.Hoare.{Triple, Triple-map_error, Triple-statement, Post-one_row}
use goauth_server.Exec.Keeps.{Keeps, Keeps-statement, Ages}
use goauth_server.Repository.Codes.{set_used, get_authorization_code, mark_authorization_code_used}
use goauth_server.Repository.Frames.{On, On-Ages, code_rows}

-- the test of the search by code
abbrev pub has_code : String → AuthorizationCode → Bool
has_code code r = str_eq r.code code

-- The code is in the table and marked as used.
pub record Spent (code : String) (t : ℕ) (rows : List AuthorizationCode) : Type 0 where
  pub row : AuthorizationCode
  pub found : select_first (has_code code) rows ≡ some row
  pub used : is_some row.used_at ≡ true

-- The search by the code finds `row`.
pub record Present (code : String) (row : AuthorizationCode) (t : ℕ) (rows : List AuthorizationCode)
    : Type 0 where
  pub found : select_first (has_code code) rows ≡ some row

pub Spent-Ages : (code : String) → Ages (On code_rows (Spent code))
Spent-Ages code = On-Ages _ _ λ t rows p. record { row = p.row; found = p.found; used = p.used }

pub Present-Ages :
    (code : String) (row : AuthorizationCode) → Ages (On code_rows (Present code row))
Present-Ages code row = On-Ages _ _ λ t rows p. record { found = p.found }

-- The search by a code commutes with the marking of codes.
find-set_used :
    (code : String) (now : Time) (q : AuthorizationCode → Bool) (rows : List AuthorizationCode)
    (row : AuthorizationCode)
    → select_first (has_code code) rows ≡ some row
    → select_first (has_code code) (update_where q (set_used now) rows)
      ≡ some (if q row then set_used now row else row)
unfolding set_used
find-set_used code now q rows row found =
    select_first-update_where (has_code code) q (set_used now) rows (λ r. refl)
    ∙ ap (Option.map (λ r. if q r then set_used now r else r)) found

module _ (e : Environment) (code : String) where
  pub mark_authorization_code_used-Spent :
      (i : Uuid) → Keeps (On code_rows (Spent code)) (mark_authorization_code_used e i)
  unfolding mark_authorization_code_used code_rows set_used
  mark_authorization_code_used-Spent i = Keeps-statement e _ (Spent-Ages code) λ w p. record {
    holds = record {
      row = if p.holds.row.id == i then set_used (e.time w.tick) p.holds.row else p.holds.row;
      found =
          find-set_used code (e.time w.tick) (λ r. r.id == i) w.db.codes p.holds.row p.holds.found;
      used = ground (arith, p.holds.used);
    };
  }

  pub mark_authorization_code_used-Present :
      (row : AuthorizationCode)
      → Triple
          (On code_rows (Present code row))
          (mark_authorization_code_used e row.id)
          (λ a. On code_rows (Spent code))
          (λ r w. Unit {0})
  unfolding mark_authorization_code_used code_rows set_used
  mark_authorization_code_used-Present row =
      Triple-statement e _ (λ w p. tt)
        λ w p.
          Post-one_row (λ a. On code_rows (Spent code)) (λ r w. Unit {0}) _ _
            (λ a. record {
              holds = record {
                row = set_used (e.time w.tick) row;
                found =
                    find-set_used code (e.time w.tick) (λ r. r.id == row.id) w.db.codes row
                      p.holds.found
                    ∙ ap (λ b. some (if b then set_used (e.time w.tick) row else row))
                        (==_refl row.id);
                used = refl;
              };
            })
            tt

  pub get_authorization_code-Present :
      (g : Error → Error)
      → Triple
          (λ w. Unit {0})
          (map_error g (get_authorization_code e code))
          (λ c. On code_rows (Present code c))
          (λ r w. Unit {0})
  unfolding get_authorization_code code_rows
  get_authorization_code-Present g = Triple-map_error g _ (
      Triple-statement e _ (λ w p. tt)
        λ w p. elim (Option-cases (select_first (has_code code) w.db.codes)) [
          | inl nothing ↦ rw nothing tt
          | inr (c, it) ↦ rw it (record { holds = record { found = it } })
        ])

  pub get_authorization_code-Spent :
      (g : Error → Error)
      → Triple
          (On code_rows (Spent code))
          (map_error g (get_authorization_code e code))
          (λ c w. (is_some c.used_at ≡ true) × On code_rows (Spent code) w)
          (λ r w. Unit {0})
  unfolding get_authorization_code code_rows
  get_authorization_code-Spent g = Triple-map_error g _ (
      Triple-statement e _ (λ w p. tt)
        λ w p. rw p.holds.found (p.holds.used, (Spent-Ages code).at w p))
