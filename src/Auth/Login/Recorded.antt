-- ===== src/Auth/Login/Recorded.antt =====
-- What the reset of the failures and the record of a login leave in the row of the user.
use goauth_server.Prelude.{
  ℕ, ◌≡◌, inl, inr, refl, ◌∙◌, Bool, false, not, ◌&&◌, ◌||◌, ◌==◌, some, is_some, List, [], ◌∷◌,
  select_first, update_where, exists, arith, select_first-update_where, select_first_sound,
  Option-cases,
}
use goauth_server.Model.{Uuid, Time, User}
use goauth_server.Environment.{Environment}
use goauth_server.Exec.{World}
use goauth_server.Exec.Hoare.{Triple, Triple-statement, Post-one_row, Triple-ask}
use goauth_server.Exec.Facts.{Any}
use goauth_server.Repository.Users.{
  reset_login_attempts, update_last_login, update_user_row, set_attempts_reset, set_last_login,
}
use goauth_server.Repository.Frames.{On, user_rows}
use goauth_server.Auth.Service.{time_now}

-- A row of the user with a failure or a lockout on record.
abbrev pub is_dirty : Uuid → User → Bool
is_dirty user r =
    r.id == user
    && (not (r.failed_login_attempts == 0)
        || (is_some r.last_failed_login_at || is_some r.locked_until))

-- No failure and no lockout of the user is on record.
pub record Clean (user : Uuid) (t : ℕ) (rows : List User) : Type 0 where
  pub clean : exists (is_dirty user) rows ≡ false

-- The user is as stored, last seen at a reading of the clock, with no failure and no lockout.
pub record Admitted (e : Environment) (user : Uuid) (found : User) (t : ℕ) (rows : List User)
    : Type 0 where
  pub clean : exists (is_dirty user) rows ≡ false
  pub stored : select_first (λ r. r.id == user) rows ≡ some found
  pub reading : ℕ
  pub seen : found.last_login_at ≡ e.time reading

exists-set_attempts_reset :
    (user : Uuid) (now : Time) (rows : List User)
    → exists (is_dirty user) (update_where (λ r. r.id == user) (set_attempts_reset now) rows)
      ≡ false
unfolding exists update_where set_attempts_reset
exists-set_attempts_reset user now [] = refl
exists-set_attempts_reset user now (r ∷ rows) =
    ground (arith, exists-set_attempts_reset user now rows)

exists-set_last_login :
    (user : Uuid) (now at : Time) (rows : List User)
    → exists (is_dirty user) rows ≡ false
    → exists (is_dirty user) (update_where (λ r. r.id == user) (set_last_login now at) rows) ≡ false
unfolding exists update_where set_last_login
exists-set_last_login user now at [] h = refl
exists-set_last_login user now at (r ∷ rows) h =
    ground (arith, exists-set_last_login user now at rows, h)

-- The row that the update of the last login returns shows it.
select_first-set_last_login :
    (user : Uuid) (now at : Time) (rows : List User) (found : User)
    → select_first
        (λ r. r.id == user)
        (update_where (λ r. r.id == user) (set_last_login now at) rows)
      ≡ some found
    → found.last_login_at ≡ at
unfolding set_last_login
select_first-set_last_login user now at rows found h =
    let moved =
      select_first-update_where (λ r. r.id == user) (λ r. r.id == user) (set_last_login now at) rows
        (λ r. refl) in
    elim (Option-cases (select_first (λ r. r.id == user) rows)) [
      | inl nothing ↦ cc (h, moved, nothing)
      | inr (a, it) ↦
          let its = select_first_sound (λ r. r.id == user) rows it in cc (h, moved, it, its)
    ]

module _ (e : Environment) (i : Uuid) where
  pub reset_login_attempts-Clean :
      {P : World → Type 0}
      → Triple P (reset_login_attempts e i) (λ a. On user_rows (Clean i)) (λ r w. Unit {0})
  unfolding reset_login_attempts update_user_row user_rows
  reset_login_attempts-Clean =
      Triple-statement e _ (λ w p. tt)
        λ w p.
          Post-one_row (λ a. On user_rows (Clean i)) (λ r w. Unit {0}) _ _
            (λ a. record {
              holds = record { clean = exists-set_attempts_reset i (e.time w.tick) w.db.users };
            })
            tt

  pub time_now-Clean :
      Triple
        (On user_rows (Clean i))
        (time_now e)
        (λ now w. On user_rows (Clean i) w × ((k : ℕ) × (now ≡ e.time k)))
        Any
  unfolding time_now
  time_now-Clean =
      Triple-ask e _ λ w p. (record { holds = record { clean = p.holds.clean } }, (w.tick, refl))

  pub update_last_login-Admitted :
      (at : Time) (k : ℕ)
      → at ≡ e.time k
      → Triple
          (On user_rows (Clean i))
          (update_last_login e i at)
          (λ found. On user_rows (Admitted e i found))
          (λ r w. Unit {0})
  unfolding update_last_login update_user_row user_rows
  update_last_login-Admitted at k reads =
      Triple-statement e _ (λ w p. tt)
        λ w p.
          let rows = update_where (λ r. r.id == i) (set_last_login (e.time w.tick) at) w.db.users in
          elim (Option-cases (select_first (λ r. r.id == i) rows)) [
            | inl nothing ↦ rw nothing tt
            | inr (found, it) ↦ rw it (record {
              holds = record {
                clean = exists-set_last_login i (e.time w.tick) at w.db.users p.holds.clean;
                stored = it;
                reading = k;
                seen = select_first-set_last_login i (e.time w.tick) at w.db.users found it ∙ reads;
              };
            })
          ]
