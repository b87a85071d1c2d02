-- ===== src/Auth/Login/Locked.antt =====
-- What an active lockout does.
use goauth_server.Prelude.{
  ℕ, ◌+◌, ◌≡◌, refl, String, true, false, ◌&&◌, ◌==◌, Option, some, none, str_eq, select_first,
  exists,
}
use goauth_server.Model.{Uuid, Time, User}
use goauth_server.Environment.{Environment}
use goauth_server.Exec.{
  Error, World, ok, err, account_locked, map_error, ◌>>=◌, statement, ask, guard,
}
use goauth_server.Exec.Hoare.{Triple, Triple-bind, Triple-if, Triple-pure, Triple-err}
use goauth_server.Exec.Facts.{Unchanged, Triple-assume}
use goauth_server.Exec.Served.{pass_query, pass_option}
use goauth_server.Repository.Users.{get_user_by_email_for_auth, is_full}
use goauth_server.Auth.Service.{Service, after, sub_time, signed_leb, duration, second, time_now}
use goauth_server.Auth.Login.Counted.{LockedOut, count_failure-LockedOut}
use goauth_server.Auth.Login.{
  verify_argon2id, check_lockout, count_failure, record_login, verify_credentials,
}

-- Where the user is read and the lockout has not passed when the clock is read next, the login is
-- refused with the end of the lockout, whatever the password is, and nothing is written.
pub lockout_refuses :
    (e : Environment) (s : Service) (email password source_ip : String) (w : World) (user : User)
    (until : Time)
    → e.fails w.tick ≡ false
    → select_first (λ r. str_eq r.email email) w.db.users ≡ some user
    → user.locked_until ≡ some until
    → after until (e.time (w.tick + 1)) ≡ true
    → let (r, w') = verify_credentials e s email password source_ip w in
      (r ≡ err (account_locked until)) × (w'.db ≡ w.db)
unfolding verify_credentials check_lockout time_now get_user_by_email_for_auth map_error ◌>>=◌
    statement ask guard
lockout_refuses e s email password source_ip w user until served found locked active =
    rw (served, found, locked, active) (refl, refl)

module _ (e : Environment) (s : Service) {P : World → Type 0} {E : Error → World → Type 0} where
  check_lockout-none :
      (i : Uuid) (o : Option Time) → o ≡ none → Triple P (check_lockout e s i o) (λ a. P) E
  unfolding check_lockout
  check_lockout-none i none h = Triple-pure tt (λ w p. p)
  check_lockout-none i (some until) h = absurd (cc (h))

  verify_argon2id-false :
      (g : Error → Error) (password encoded : String)
      → ((v : World) → verify_argon2id e password encoded v ≡ (ok false, v))
      → Triple P (map_error g (verify_argon2id e password encoded)) (λ b w. P w × (b ≡ false)) E
  unfolding map_error
  verify_argon2id-false g password encoded mismatch = record {
    run = λ w p. rw (mismatch w) (p, refl);
  }

-- Where no statement fails, a wrong password ends in a lockout, if the user is found by the email
-- address and the identifier, is not locked, has a last failure within the window at every reading of the clock, and with
-- this failure as many as are allowed. (The counter is a 32-bit column and must not be full.) The login is
-- refused with the end of the lockout, counted from a reading of the clock, and the user's row is locked until then.
pub lockout_begins :
    (e : Environment) (s : Service) (served : (k : ℕ) → e.fails k ≡ false)
    (email password source_ip encoded : String) (w : World) (user : User) (last : Time)
    → select_first (λ r. str_eq r.email email) w.db.users ≡ some user
    → select_first (λ r. r.id == user.id) w.db.users ≡ some user
    → exists (λ r. r.id == user.id && is_full r) w.db.users ≡ false
    → user.locked_until ≡ none
    → user.password_hash ≡ some encoded
    → ((v : World) → verify_argon2id e password encoded v ≡ (ok false, v))
    → user.last_failed_login_at ≡ some last
    → ((k : ℕ)
        → signed_leb (sub_time (e.time k) last) (duration s.cfg.window_seconds second) ≡ true)
    → signed_leb s.cfg.max_attempts (user.failed_login_attempts + 1) ≡ true
    → let (result, w') = verify_credentials e s email password source_ip w in
      (r : Error) × ((result ≡ err r) × LockedOut e s served user.id r w')
unfolding verify_credentials check_lockout get_user_by_email_for_auth
lockout_begins e s served email password source_ip encoded w user last found by_id room free hashed
      mismatch failed_before recent enough =
    Triple-err
      (pass_query e served w.db _ (λ d. select_first (λ r. str_eq r.email email) d.users) _ user
        found
        (Triple-bind (λ a. Unchanged w.db) _ _
          (check_lockout-none e s user.id user.locked_until free)
          λ _. pass_option _ _ _ encoded hashed (
            Triple-bind _ _ _ (verify_argon2id-false e s _ password encoded mismatch) λ matched.
              Triple-assume _ λ wrong.
                Triple-if matched (record_login e s user) (count_failure e s user email source_ip)
                  (λ right. absurd (cc (right, wrong)))
                  (λ _.
                    count_failure-LockedOut e s served w.db user last by_id room failed_before
                      recent enough email source_ip))))
      w (record { same = refl })
