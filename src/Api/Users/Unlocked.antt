-- ===== src/Api/Users/Unlocked.antt =====
-- What an administrator's unlock leaves behind.
use goauth_server.Prelude.{
  ℕ, ◌≡◌, refl, sym, ap, subst, Bool, true, false, String, Option, none, some, List, ◌==◌,
  select_first, Option-cases, inl, inr, if◌then◌else◌,
}
use goauth_server.Model.{Db, Uuid, User}
use goauth_server.Environment.{Environment}
use goauth_server.Exec.{Error, ok, World, pure}
use goauth_server.Exec.Hoare.{
  Triple, Triple-bind, Triple-pure, Triple-map_error, Triple-statement, Triple-at,
}
use goauth_server.Exec.Keeps.{Ages}
use goauth_server.Exec.Facts.{Any}
use goauth_server.Http.{errors_is, Request, Context, Reply, success, failure}
use goauth_server.Http.Answers.{Triple-or_answer}
use goauth_server.Repository.Users.{unlock_user_account, update_user_row, set_unlocked}
use goauth_server.Repository.Frames.{On, On-Ages, user_rows}
use goauth_server.Repository.Blind.{frame_rules}
use goauth_server.Repository.Logged.{audit_step}
use goauth_server.Repository.Updated.{found_updated, missing_updated}
use goauth_server.Auth.Service.{Service}
use goauth_server.Auth.Login.{check_lockout}
use goauth_server.UserService.{unlock_account}
use goauth_server.Api.Users.{is_no_such_user, unlock_user_of, unlock_user, handle_user_error}

-- The user has a row, which is not locked, so that the login finds no lockout.
pub record Unlocked (e : Environment) (s : Service) (id : Uuid) (d : Db) : Type 0 where
  pub row : User
  pub found : select_first (λ r. r.id == id) d.users ≡ some row
  pub free : row.locked_until ≡ none
  pub admitted : (w : World) → check_lockout e s id row.locked_until w ≡ (ok tt, w)

record Free (id : Uuid) (t : ℕ) (rows : List User) : Type 0 where
  row : User
  found : select_first (λ r. r.id == id) rows ≡ some row
  free : row.locked_until ≡ none

Free-Ages : (id : Uuid) → Ages (On user_rows (Free id))
Free-Ages id = On-Ages _ _ λ t rows p. record { row = p.row; found = p.found; free = p.free }

module _ (e : Environment) (id : Uuid) where
  abbrev Answered : Reply (Unit {0}) → World → Type 0
  Answered (success n x) w = On user_rows (Free id) w
  Answered (failure n text) w = Unit {0}

  unlock_account-Free :
      Triple (λ w. Unit {0}) (unlock_account e id) (λ x. On user_rows (Free id)) Any
  unfolding unlock_account unlock_user_account update_user_row user_rows set_unlocked
  unlock_account-Free =
      Triple-bind (λ u. On user_rows (Free id)) _ _
        (Triple-map_error _ _ (
          Triple-statement e _ (λ w p. tt)
            λ w p. elim (Option-cases (select_first (λ r. r.id == id) w.db.users)) [
              | inl nothing ↦
                  rw
                    (missing_updated (λ r. r.id) id (set_unlocked (e.time w.tick)) w.db.users
                      (λ r. refl) nothing)
                    tt
              | inr (row, it) ↦
                  let new =
                    found_updated (λ r. r.id) id (set_unlocked (e.time w.tick)) w.db.users
                      (λ r. refl) row it in
                  rw new (record {
                    holds = record {
                      row = set_unlocked (e.time w.tick) row;
                      found = new;
                      free = refl;
                    };
                  })
            ]))
        λ u. Triple-pure tt λ w p. p

  failure-Answered : (r : Error) (w : World) → Answered (handle_user_error r) w
  unfolding handle_user_error
  failure-Answered r w = go (errors_is is_no_such_user r)
    where
      go :
          (b : Bool)
          → Answered
              (if b then failure 404 "user not found" else failure 500 "internal server error")
              w
      go true = tt
      go false = tt

  unlock_user_of-Answered :
      (audited : Bool) (admin : Option String)
      → Triple (λ w. Unit {0}) (unlock_user_of e audited admin (some id)) Answered Any
  unlock_user_of-Answered audited admin =
      Triple-or_answer _ _ _ _ _ unlock_account-Free
        (λ x.
          Triple-bind _ _ _ (audit_step e audited _ (search (frame_rules, Free-Ages)))
            λ y. Triple-pure _ λ w p. p)
        λ r w p. failure-Answered r w

-- Where the unlock of a user is answered with 204, the user has a row, the row is not locked, and the
-- login of that row finds no lockout.
pub unlock_user_sound :
    (e : Environment) (s : Service) (audited : Bool) (c : Context) (r : Request) (id : Uuid)
    (w : World)
    → e.parse_uuid (r.param "id") ≡ some id
    → (unlock_user e audited c r w).0 ≡ ok (success 204 tt)
    → Unlocked e s id (unlock_user e audited c r w).1.db
unfolding unlock_user check_lockout user_rows pure
unlock_user_sound e s audited c r id w named h =
    let freed : On user_rows (Free id)
        (unlock_user_of e audited c.user_id (e.parse_uuid (r.param "id")) w).1 =
      Triple-at
        (subst
          (λ o. Triple (λ w. Unit {0}) (unlock_user_of e audited c.user_id o) (Answered e id) Any)
          (sym named) (unlock_user_of-Answered e id audited c.user_id))
        w (success 204 tt) tt h in
    record {
      row = freed.holds.row;
      found = freed.holds.found;
      free = freed.holds.free;
      admitted = λ w'. ap (λ o. check_lockout e s id o w') freed.holds.free;
    }
