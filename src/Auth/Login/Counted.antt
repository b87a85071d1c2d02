-- ===== src/Auth/Login/Counted.antt =====
-- The steps that count a failure and lock the user, where no statement fails.
use goauth_server.Prelude.{
  ℕ, ◌+◌, ◌≡◌, refl, String, true, false, ◌&&◌, ◌==◌, List, some, select_first, exists, arith,
  subst, sym, ap,
}
use goauth_server.Model.{Uuid, Time, User, Db}
use goauth_server.Environment.{Environment}
use goauth_server.Exec.{Error, World, account_locked}
use goauth_server.Exec.Hoare.{
  Triple, Triple-bind, Triple-map_error, Triple-raise, Triple-if, Triple-ask, Triple-pure,
}
use goauth_server.Exec.Keeps.{Ages}
use goauth_server.Exec.Facts.{Unchanged, Triple-assume}
use goauth_server.Exec.Served.{served_statement}
use goauth_server.Repository.Users.{
  increment_failed_login_attempts, lock_user_account, update_user_row, set_failed, set_locked,
  is_full,
}
use goauth_server.Repository.Logged.{audit_step}
use goauth_server.Repository.Updated.{find_updated}
use goauth_server.Repository.Blind.{frame_rules}
use goauth_server.Repository.Frames.{On, On-Ages, user_rows}
use goauth_server.Auth.Service.{Service, add_time, sub_time, signed_leb, duration, second, time_now}
use goauth_server.Auth.Login.{within_window, lock_account, count_failure, refuse_login}

-- The user is found by its identifier, with so many failures on record.
record Counted (i : Uuid) (n t : ℕ) (rows : List User) : Type 0 where
  row : User
  found : select_first (λ r. r.id == i) rows ≡ some row
  counted : row.failed_login_attempts ≡ n

-- The user is found by its identifier, locked until the time.
pub record LockedUntil (i : Uuid) (until : Time) (t : ℕ) (rows : List User) : Type 0 where
  pub row : User
  pub found : select_first (λ r. r.id == i) rows ≡ some row
  pub locked : row.locked_until ≡ some until

Counted-Ages : (i : Uuid) (n : ℕ) → Ages (On user_rows (Counted i n))
Counted-Ages i n =
    On-Ages _ _ λ t rows p. record { row = p.row; found = p.found; counted = p.counted }

LockedUntil-Ages : (i : Uuid) (until : Time) → Ages (On user_rows (LockedUntil i until))
LockedUntil-Ages i until =
    On-Ages _ _ λ t rows p. record { row = p.row; found = p.found; locked = p.locked }

module _ (e : Environment) (s : Service) (served : (k : ℕ) → e.fails k ≡ false) where
  -- A refusal that names the end of the lockout that it stored, counted from a reading of the clock.
  pub record LockedOut (i : Uuid) (r : Error) (w : World) : Type 0 where
    pub until : Time
    pub reading : ℕ
    pub reads : until ≡ add_time (e.time reading) (duration s.cfg.duration_seconds second)
    pub named : r ≡ account_locked until
    pub stored : On user_rows (LockedUntil i until) w

  module _ (i : Uuid) where
    lock_user_account-LockedUntil :
        {E : Error → World → Type 0} (n : ℕ) (until : Time)
        → Triple
            (On user_rows (Counted i n))
            (lock_user_account e i until)
            (λ a. On user_rows (LockedUntil i until))
            E
    unfolding lock_user_account update_user_row user_rows set_locked
    lock_user_account-LockedUntil n until = served_statement e served _ λ w p.
        let found =
          find_updated i (set_locked (e.time w.tick) until) w.db.users p.holds.row (λ r. refl)
            p.holds.found in
        rw found (record {
          holds = record {
            row = set_locked (e.time w.tick) until p.holds.row;
            found = found;
            locked = refl;
          };
        })

    increment-Counted :
        {E : Error → World → Type 0} (d : Db) (user : User)
        → select_first (λ r. r.id == i) d.users ≡ some user
        → exists (λ r. r.id == i && is_full r) d.users ≡ false
        → Triple
            (Unchanged d)
            (increment_failed_login_attempts e i)
            (λ row w.
              On user_rows (Counted i (user.failed_login_attempts + 1)) w
              × (row.failed_login_attempts ≡ user.failed_login_attempts + 1))
            E
    unfolding increment_failed_login_attempts update_user_row user_rows set_failed
    increment-Counted d user found room = served_statement e served _ λ w p.
        let updated = find_updated i (set_failed (e.time w.tick)) d.users user (λ r. refl) found in
        rw (p.same, room, updated)
          (
            record {
              holds = record {
                row = set_failed (e.time w.tick) user;
                found = updated;
                counted = refl;
              };
            },
            refl,
          )

  module _ (i : Uuid) (n : ℕ) {E : Error → World → Type 0} where
    time_now-Counted :
        Triple
          (On user_rows (Counted i n))
          (time_now e)
          (λ now w. On user_rows (Counted i n) w × ((k : ℕ) × (now ≡ e.time k)))
          E
    unfolding time_now
    time_now-Counted = Triple-ask e _ λ w p. ((Counted-Ages i n).at w p, (w.tick, refl))

    within_window-Counted :
        (last : Time)
        → ((k : ℕ)
            → signed_leb (sub_time (e.time k) last) (duration s.cfg.window_seconds second) ≡ true)
        → Triple
            (On user_rows (Counted i n))
            (within_window e s (some last))
            (λ b w. On user_rows (Counted i n) w × (b ≡ true))
            E
    unfolding within_window
    within_window-Counted last recent =
        Triple-bind _ _ _ time_now-Counted
          λ now. Triple-assume _ λ (k, reads). Triple-pure _ λ w p. (p, rw reads (recent k))

  lock_account-LockedOut :
      (user : User) (n : ℕ) (email source_ip : String)
      → Triple
          (On user_rows (Counted user.id n))
          (lock_account e s user email source_ip)
          (λ a w. ⊥)
          (λ r. LockedOut user.id r)
  unfolding lock_account
  lock_account-LockedOut user n email source_ip =
      Triple-bind _ _ _ (time_now-Counted user.id n) λ now. Triple-assume _ λ (k, reads).
        Triple-bind _ _ _ (Triple-map_error _ _ (lock_user_account-LockedUntil user.id n _)) λ _.
          Triple-bind _ _ _ (audit_step e _ _ (search (frame_rules, LockedUntil-Ages))) λ _.
            Triple-raise _ λ w p. record {
              until = add_time now (duration s.cfg.duration_seconds second);
              reading = k;
              reads = ap (λ t. add_time t (duration s.cfg.duration_seconds second)) reads;
              named = refl;
              stored = p;
            }

  module _ (d : Db) (user : User) (last : Time)
      (by_id : select_first (λ r. r.id == user.id) d.users ≡ some user)
      (room : exists (λ r. r.id == user.id && is_full r) d.users ≡ false)
      (failed_before : user.last_failed_login_at ≡ some last)
      (recent : (k : ℕ)
        → signed_leb (sub_time (e.time k) last) (duration s.cfg.window_seconds second) ≡ true)
      (enough : signed_leb s.cfg.max_attempts (user.failed_login_attempts + 1) ≡ true) where
    pub count_failure-LockedOut :
        (email source_ip : String)
        → Triple
            (Unchanged d)
            (count_failure e s user email source_ip)
            (λ a w. ⊥)
            (λ r. LockedOut user.id r)
    unfolding count_failure
    count_failure-LockedOut email source_ip =
        Triple-bind _ _ _ (Triple-map_error _ _ (increment-Counted user.id d user by_id room))
          λ updated. Triple-assume _ λ counts.
            Triple-bind _ _ _
              (subst
                (λ o.
                  Triple (On user_rows (Counted user.id (user.failed_login_attempts + 1)))
                    (within_window e s o)
                    (λ b w.
                      On user_rows (Counted user.id (user.failed_login_attempts + 1)) w
                      × (b ≡ true))
                    (λ r. LockedOut user.id r))
                (sym failed_before)
                (within_window-Counted user.id (user.failed_login_attempts + 1) last recent))
              λ within. Triple-assume _ λ yes_.
                Triple-if (signed_leb s.cfg.max_attempts updated.failed_login_attempts && within)
                  (lock_account e s user email source_ip) (refuse_login e s user email source_ip)
                  (λ _.
                    lock_account-LockedOut user (user.failed_login_attempts + 1) email source_ip)
                  (λ no_. record {
                    run = λ w p. absurd (ground (arith, counts, enough, yes_, no_));
                  })
