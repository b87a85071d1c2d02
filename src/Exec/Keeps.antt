-- ===== src/Exec/Keeps.antt =====
-- Invariants: a method keeps `P`, whether it returns or fails. One rule for each way
-- to build a method; `search keeps_rules` follows a do block.
use mathlib.Core.Bool.{cond}
use goauth_server.Prelude.{ℕ, ◌+◌, ◌≡◌, refl, Bool, true, false, Option, none, some, if◌then◌else◌}
use goauth_server.Model.{Db}
use goauth_server.Environment.{Environment}
use goauth_server.Exec.{
  Error, Result, ok, err, World, M, continue, ◌>>=◌, pure, raise, on_error, map_error, ignore,
  attempt, lift_option, lift_result, guard, when, ask, statement, server_error,
}

pub record Keeps {A : Type 0} (P : World → Type 0) (m : M A) : Type 0 where
  pub at : (w : World) → P w → P (m w).1

-- `P` outlives a question to the environment that changes nothing.
pub record Ages (P : World → Type 0) : Type 0 where
  pub at : (w : World) → P w → P (record w { tick = w.tick + 1 })

-- A predicate on the database alone.
pub record OnDb (P : Db → Type 0) (w : World) : Type 0 where
  pub holds : P w.db

pub OnDb-Ages : (P : Db → Type 0) → Ages (OnDb P)
OnDb-Ages P = record { at = λ w p. record { holds = p.holds } }

module _ {A : Type 0} {P : World → Type 0} where
  pub Keeps-pure : (a : A) → Keeps P (pure a)
  unfolding pure
  Keeps-pure a = record { at = λ w p. p }

  pub Keeps-raise : (e : Error) → Keeps P (raise {A = A} e)
  unfolding raise
  Keeps-raise e = record { at = λ w p. p }

  pub Keeps-if :
      (b : Bool) (m n : M A)
      → (b ≡ true → Keeps P m)
      → (b ≡ false → Keeps P n)
      → Keeps P (if b then m else n)
  Keeps-if true m n hm hn = hm refl
  Keeps-if false m n hm hn = hn refl

  pub Keeps-lift_option : (e : Error) (o : Option A) → Keeps P (lift_option e o)
  unfolding lift_option
  Keeps-lift_option e none = record { at = λ w p. p }
  Keeps-lift_option e (some a) = record { at = λ w p. p }

  pub Keeps-lift_result : (r : Result A) → Keeps P (lift_result r)
  unfolding lift_result
  Keeps-lift_result r = record { at = λ w p. p }

  pub Keeps-map_error : (g : Error → Error) (m : M A) → Keeps P m → Keeps P (map_error g m)
  unfolding map_error
  Keeps-map_error g m k = record { at = λ w p. go (m w) (k.at w p) }
    where
      go : (r : Result A × World) → P r.1 → P (on_error g r).1
      go (ok a, w) h = h
      go (err e, w) h = h

  pub Keeps-ignore : (m : M A) → Keeps P m → Keeps P (ignore m)
  unfolding ignore
  Keeps-ignore m k = record { at = λ w p. k.at w p }

  pub Keeps-attempt : (m : M A) → Keeps P m → Keeps P (attempt m)
  unfolding attempt
  Keeps-attempt m k = record { at = λ w p. k.at w p }

module _ {A B : Type 0} {P : World → Type 0} where
  Keeps-continue :
      (f : A → M B) (r : Result A × World) → ((a : A) → Keeps P (f a)) → P r.1 → P (continue r f).1
  Keeps-continue f (ok a, w) kf h = (kf a).at w h
  Keeps-continue f (err e, w) kf h = h

  pub Keeps-bind :
      (m : M A) (f : A → M B) → Keeps P m → ((a : A) → Keeps P (f a)) → Keeps P (m >>= f)
  unfolding ◌>>=◌
  Keeps-bind m f km kf = record { at = λ w p. Keeps-continue f (m w) kf (km.at w p) }

module _ {P : World → Type 0} where
  pub Keeps-guard : (b : Bool) (e : Error) → Keeps P (guard b e)
  unfolding guard
  Keeps-guard true e = record { at = λ w p. p }
  Keeps-guard false e = record { at = λ w p. p }

  pub Keeps-when : (b : Bool) (m : M (Unit {0})) → Keeps P m → Keeps P (when b m)
  unfolding when
  Keeps-when true m k = record { at = k.at }
  Keeps-when false m k = record { at = λ w p. p }

module _ (e : Environment) {A : Type 0} {P : World → Type 0} where
  pub Keeps-ask : (f : ℕ → A) → Ages P → Keeps P (ask e f)
  unfolding ask
  Keeps-ask f a = record { at = λ w p. a.at w p }

  -- The rule for a query: it suffices to look at what it does to the database.
  pub Keeps-statement :
      (run : ℕ → ℕ → Db → Result A × Db)
      → Ages P
      → ((w : World)
          → P w
          → P (record w { tick = w.tick + 1; db = (run (e.time w.tick) (e.uuid w.tick) w.db).1 }))
      → Keeps P (statement e run)
  unfolding statement
  Keeps-statement run a h = record { at = λ w p. go (e.fails w.tick) w p }
    where
      go :
          (b : Bool) (w : World)
          → P w
          → P
              (cond {A = Result A × World} b
                (err server_error, record w { tick = w.tick + 1 })
                (let (r, d) = run (e.time w.tick) (e.uuid w.tick) w.db in
                  (r, record w { tick = w.tick + 1; db = d }))).1
      go true w p = a.at w p
      go false w p = h w p

-- The rule for predicates on the database.
pub OnDb-statement :
    (e : Environment) {A : Type 0} {P : Db → Type 0} (run : ℕ → ℕ → Db → Result A × Db)
    → ((t u : ℕ) (d : Db) → P d → P (run t u d).1)
    → Keeps (OnDb P) (statement e run)
OnDb-statement e run h =
    Keeps-statement e run (OnDb-Ages _)
      (λ w p. record { holds = h (e.time w.tick) (e.uuid w.tick) w.db p.holds })

pub ruleset keeps_rules = (
  Keeps-pure, Keeps-raise, Keeps-if, Keeps-lift_option, Keeps-map_error, Keeps-ignore, Keeps-bind,
  Keeps-guard, Keeps-when, Keeps-ask, Keeps-attempt, Keeps-lift_result,
)
