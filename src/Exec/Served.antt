-- ===== src/Exec/Served.antt =====
-- Methods in an environment where every statement is served: each rule takes one step that succeeds,
-- for whatever is claimed of the results and of the errors of the rest.
use goauth_server.Prelude.{ℕ, ◌+◌, ◌≡◌, ap, ◌∙◌, Bool, true, false, Option, some}
use goauth_server.Model.{Db}
use goauth_server.Environment.{Environment}
use goauth_server.Exec.{
  Error, Result, World, M, ◌>>=◌, map_error, lift_option, guard, statement, one_row,
}
use goauth_server.Exec.Hoare.{Post, Triple}
use goauth_server.Exec.Facts.{Unchanged}

module _ {B : Type 0} {P : World → Type 0} {Q : B → World → Type 0}
    {E : Error → World → Type 0} where
  pub pass_guard :
      (b : Bool) (r : Error) (f : Unit {0} → M B)
      → b ≡ true
      → Triple P (f tt) Q E
      → Triple P (guard b r >>= f) Q E
  unfolding guard ◌>>=◌
  pass_guard b r f h t = rw h (record { run = t.run })

  pub stop_guard :
      (b : Bool) (r : Error) (f : Unit {0} → M B)
      → b ≡ false
      → ((w : World) → P w → E r w)
      → Triple P (guard b r >>= f) Q E
  unfolding guard ◌>>=◌
  stop_guard b r f h t = rw h (record { run = t })

  pub pass_option :
      {A : Type 0} (r : Error) (o : Option A) (f : A → M B) (a : A)
      → o ≡ some a
      → Triple P (f a) Q E
      → Triple P (lift_option r o >>= f) Q E
  unfolding lift_option ◌>>=◌
  pass_option r o f a h t = rw h (record { run = t.run })

-- A guard as the last step.
pub pass_last_guard :
    {P : World → Type 0} {E : Error → World → Type 0} (b : Bool) (r : Error)
    → b ≡ true
    → Triple P (guard b r) (λ a. P) E
unfolding guard
pass_last_guard b r h = rw h (record { run = λ w p. p })

module _ (e : Environment) (served : (k : ℕ) → e.fails k ≡ false) where
  -- A statement does what it says.
  pub served_statement :
      {A : Type 0} {P : World → Type 0} {Q : A → World → Type 0} {E : Error → World → Type 0}
      (run : ℕ → ℕ → Db → Result A × Db)
      → ((w : World)
          → P w
          → Post Q E (
              let (r, d) = run (e.time w.tick) (e.uuid w.tick) w.db in
              (r, record w { tick = w.tick + 1; db = d })))
      → Triple P (statement e run) Q E
  unfolding statement
  served_statement run h = record { run = λ w p. rw (served w.tick) (h w p) }

  -- A query for one row finds it.
  pub pass_query :
      {A B : Type 0} {Q : B → World → Type 0} {E : Error → World → Type 0} (d : Db)
      (g : Error → Error) (find : Db → Option A) (f : A → M B) (a : A)
      → find d ≡ some a
      → Triple (Unchanged d) (f a) Q E
      → Triple
          (Unchanged d)
          (map_error g (statement e (λ now id d'. (one_row (find d'), d'))) >>= f)
          Q
          E
  unfolding map_error statement ◌>>=◌
  pass_query d g find f a found t = record {
    run = λ w p. rw (served w.tick, ap find p.same ∙ found) (t.run _ (record { same = p.same }));
  }
