-- ===== src/Exec/Facts.antt =====
-- What a method has found out where it goes on: each rule hands the rest of the method the fact that
-- its first step established. Nothing is claimed of a method that fails.
use goauth_server.Prelude.{
  ℕ, ◌≡◌, refl, Bool, true, false, Option, none, some, List, Option-cases, inl, inr, ap, ◌∙◌, sym,
  select_first, select_first_sound,
}
use goauth_server.Model.{Db}
use goauth_server.Environment.{Environment}
use goauth_server.Exec.{
  Result, ok, err, Error, World, M, ◌>>=◌, map_error, lift_option, lift_result, guard, statement,
  ask, one_row,
}
use goauth_server.Exec.Hoare.{
  Post, Triple, Triple-bind, Triple-map_error, Triple-statement, Post-trivial,
}

-- The postcondition on errors that says nothing.
abbrev pub Any : Error → World → Type 0
Any r w = Unit {0}

-- Nothing was written yet.
pub record Unchanged (d : Db) (w : World) : Type 0 where
  pub same : w.db ≡ d

module _ {A : Type 0} {P : World → Type 0} {Q : A → World → Type 0}
    {E : Error → World → Type 0} where
  pub Triple-assume : {F : Type 0} (m : M A) → (F → Triple P m Q E) → Triple (λ w. P w × F) m Q E
  Triple-assume m h = record { run = λ w p. (h p.1).run w p.0 }

-- What is never reached does anything.
pub Triple-never : {A : Type 0} {Q : A → World → Type 0} (m : M A) → Triple (λ w. ⊥) m Q Any
Triple-never m = record { run = λ w p. elim p [ ] }

module _ {A : Type 0} {P : World → Type 0} {Q R : A → World → Type 0} where
  pub Triple-weaken_post :
      (m : M A) → ((a : A) (w : World) → Q a w → R a w) → Triple P m Q Any → Triple P m R Any
  Triple-weaken_post m h t = record { run = λ w p. go (m w) (t.run w p) }
    where
      go : (r : Result A × World) → Post Q Any r → Post R Any r
      go (ok a, w) q = h a w q
      go (err r, w) q = tt

-- A result that is at hand changes nothing.
pub Triple-lift_result :
    {A : Type 0} {P : World → Type 0} (r : Result A) → Triple P (lift_result r) (λ a. P) Any
unfolding lift_result
Triple-lift_result (ok a) = record { run = λ w p. p }
Triple-lift_result (err x) = record { run = λ w p. tt }

-- A guard as the last step.
pub last_guard :
    {P : World → Type 0} {Q : Unit {0} → World → Type 0} (b : Bool) (r : Error)
    → ((w : World) → P w → b ≡ true → Q tt w)
    → Triple P (guard b r) Q Any
unfolding guard
last_guard true r h = record { run = λ w p. h w p refl }
last_guard false r h = record { run = λ w p. tt }

module _ {B : Type 0} {P : World → Type 0} {Q : B → World → Type 0} where
  pub after_guard :
      (b : Bool) (r : Error) (f : Unit {0} → M B)
      → (b ≡ true → Triple P (f tt) Q Any)
      → Triple P (guard b r >>= f) Q Any
  unfolding guard ◌>>=◌
  after_guard true r f h = record { run = (h refl).run }
  after_guard false r f h = record { run = λ w p. tt }

module _ {A B : Type 0} {P : World → Type 0} {Q : B → World → Type 0} where
  pub after_option :
      (r : Error) (o : Option A) (f : A → M B)
      → ((a : A) → o ≡ some a → Triple P (f a) Q Any)
      → Triple P (lift_option r o >>= f) Q Any
  unfolding lift_option ◌>>=◌
  after_option r none f h = record { run = λ w p. tt }
  after_option r (some a) f h = record { run = (h a refl).run }

  pub after_result :
      (r : Result A) (f : A → M B)
      → ((a : A) → r ≡ ok a → Triple P (f a) Q Any)
      → Triple P (lift_result r >>= f) Q Any
  unfolding lift_result ◌>>=◌
  after_result (ok a) f h = record { run = (h a refl).run }
  after_result (err x) f h = record { run = λ w p. tt }

  -- A step of which nothing is needed but its result.
  pub after_unknown :
      (m : M A) (f : A → M B)
      → ((a : A) → Triple (λ w. Unit {0}) (f a) Q Any)
      → Triple P (m >>= f) Q Any
  after_unknown m f h =
      Triple-bind (λ a w. Unit {0}) m f (record { run = λ w p. Post-trivial (m w) }) h

module _ (e : Environment) (d : Db) {A B : Type 0} {Q : B → World → Type 0} where
  -- A query for one row, with its error mapped.
  pub after_query :
      (g : Error → Error) (find : Db → Option A) (f : A → M B)
      → ((a : A) → find d ≡ some a → Triple (Unchanged d) (f a) Q Any)
      → Triple
          (Unchanged d)
          (map_error g (statement e (λ now id d'. (one_row (find d'), d'))) >>= f)
          Q
          Any
  after_query g find f h =
      Triple-bind (λ a w. Unchanged d w × (find d ≡ some a)) _ _
        (Triple-map_error g _ (
          Triple-statement e _ (λ w p. tt)
            λ w p. elim (Option-cases (find w.db)) [
              | inl nothing ↦ rw nothing tt
              | inr (a, it) ↦ rw it (record { same = p.same }, ap find (sym p.same) ∙ it)
            ]))
        λ a. Triple-assume _ (h a)

  -- A question to the environment.
  pub after_ask :
      (q : ℕ → A) (f : A → M B)
      → ((k : ℕ) → Triple (Unchanged d) (f (q k)) Q Any)
      → Triple (Unchanged d) (ask e q >>= f) Q Any
  unfolding ask ◌>>=◌
  after_ask q f h = record { run = λ w p. (h w.tick).run _ (record { same = p.same }) }

module _ (e : Environment) {A B : Type 0} {P : World → Type 0} {Q : B → World → Type 0} where
  -- A query for one row that passes a test, at a time when nothing is known of the database.
  pub after_row :
      (g : Error → Error) (test : A → Bool) (rows : Db → List A) (f : A → M B)
      → ((a : A) → test a ≡ true → Triple (λ w. Unit {0}) (f a) Q Any)
      → Triple P
          (map_error g (statement e (λ now id d. (one_row (select_first test (rows d)), d))) >>= f)
          Q
          Any
  after_row g test rows f h =
      Triple-bind (λ a w. Unit {0} × (test a ≡ true)) _ _
        (Triple-map_error g _ (
          Triple-statement e _ (λ w p. tt)
            λ w p. elim (Option-cases (select_first test (rows w.db))) [
              | inl nothing ↦ rw nothing tt
              | inr (a, it) ↦ rw it (tt, select_first_sound test (rows w.db) it)
            ]))
        λ a. Triple-assume _ (h a)
