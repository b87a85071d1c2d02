-- ===== src/Exec/Hoare.antt =====
-- Preconditions and postconditions of methods, one rule for each way to build a method. `Q` is what
-- holds of a result and the world it comes with, `E` of an error and its world.
use mathlib.Core.Bool.{cond}
use goauth_server.Prelude.{
  ℕ, ◌+◌, ◌≡◌, refl, subst, Bool, true, false, Option, none, some, if◌then◌else◌,
}
use goauth_server.Model.{Db}
use goauth_server.Environment.{Environment}
use goauth_server.Exec.{
  Error, Result, ok, err, World, M, continue, ◌>>=◌, pure, raise, on_error, map_error, lift_option,
  forget, ignore, statement, ask, server_error, one_row, no_rows,
}
use goauth_server.Exec.Keeps.{Keeps}

abbrev pub Post :
    {A : Type 0} → (A → World → Type 0) → (Error → World → Type 0) → Result A × World → Type 0
Post Q E (ok a, w) = Q a w
Post Q E (err e, w) = E e w

pub record Triple {A : Type 0} (P : World → Type 0) (m : M A) (Q : A → World → Type 0)
    (E : Error → World → Type 0) : Type 0 where
  pub run : (w : World) → P w → Post Q E (m w)

module _ {A : Type 0} {P : World → Type 0} {Q : A → World → Type 0}
    {E : Error → World → Type 0} where
  pub Triple-pure : (a : A) → ((w : World) → P w → Q a w) → Triple P (pure a) Q E
  unfolding pure
  Triple-pure a h = record { run = h }

  pub Triple-raise : (e : Error) → ((w : World) → P w → E e w) → Triple P (raise e) Q E
  unfolding raise
  Triple-raise e h = record { run = h }

  pub Triple-if :
      (b : Bool) (m n : M A)
      → (b ≡ true → Triple P m Q E)
      → (b ≡ false → Triple P n Q E)
      → Triple P (if b then m else n) Q E
  Triple-if true m n hm hn = hm refl
  Triple-if false m n hm hn = hn refl

  pub Triple-lift_option :
      (e : Error) (o : Option A)
      → ((a : A) (w : World) → o ≡ some a → P w → Q a w)
      → ((w : World) → P w → E e w)
      → Triple P (lift_option e o) Q E
  unfolding lift_option
  Triple-lift_option e none hq he = record { run = he }
  Triple-lift_option e (some a) hq he = record { run = λ w. hq a w refl }

  pub Triple-weaken :
      {P' : World → Type 0} (m : M A)
      → ((w : World) → P w → P' w)
      → Triple P' m Q E
      → Triple P m Q E
  Triple-weaken m h t = record { run = λ w p. t.run w (h w p) }

module _ {A B : Type 0} {R : B → World → Type 0} {E : Error → World → Type 0} where
  Post-continue :
      (Q : A → World → Type 0) (f : A → M B) (r : Result A × World)
      → ((a : A) → Triple (Q a) (f a) R E)
      → Post Q E r
      → Post R E (continue r f)
  Post-continue Q f (ok a, w) hf h = (hf a).run w h
  Post-continue Q f (err e, w) hf h = h

  pub Triple-bind :
      {P : World → Type 0} (Q : A → World → Type 0) (m : M A) (f : A → M B)
      → Triple P m Q E
      → ((a : A) → Triple (Q a) (f a) R E)
      → Triple P (m >>= f) R E
  unfolding ◌>>=◌
  Triple-bind Q m f hm hf = record { run = λ w p. Post-continue Q f (m w) hf (hm.run w p) }

Post-on_error :
    {A : Type 0} (Q : A → World → Type 0) (E : Error → World → Type 0) (g : Error → Error)
    (r : Result A × World)
    → Post Q (λ e. E (g e)) r
    → Post Q E (on_error g r)
Post-on_error Q E g (ok a, w) h = h
Post-on_error Q E g (err e, w) h = h

module _ {A : Type 0} {P : World → Type 0} {Q : A → World → Type 0}
    {E : Error → World → Type 0} where
  pub Triple-map_error :
      (g : Error → Error) (m : M A) → Triple P m Q (λ e. E (g e)) → Triple P (map_error g m) Q E
  unfolding map_error
  Triple-map_error g m h = record { run = λ w p. Post-on_error Q E g (m w) (h.run w p) }

module _ {A : Type 0} {P R : World → Type 0} where
  -- An invariant is a postcondition of every outcome.
  pub Triple-keeps :
      (m : M A) → Keeps P m → ((w : World) → P w → R w) → Triple P m (λ a. P) (λ e. R)
  Triple-keeps m k h = record { run = λ w p. go (m w) (k.at w p) }
    where
      go : (r : Result A × World) → P r.1 → Post (λ a. P) (λ e. R) r
      go (ok a, w) p = p
      go (err e, w) p = h w p

module _ {A : Type 0} {P : World → Type 0} {E : Error → World → Type 0} where
  -- An error that is ignored is none.
  pub Triple-ignore : (m : M A) → Keeps P m → Triple P (ignore m) (λ a. P) E
  unfolding ignore
  Triple-ignore m k = record { run = λ w p. go (m w) (k.at w p) }
    where
      go : (r : Result A × World) → P r.1 → Post (λ a. P) E (forget r)
      go (r, w) p = p

pub Post-trivial : {A : Type 0} (r : Result A × World) → Post (λ a w. Unit {0}) (λ e w. Unit {0}) r
Post-trivial (ok a, w) = tt
Post-trivial (err e, w) = tt

module _ {A : Type 0} {P : World → Type 0} where
  pub Keeps-triple : (m : M A) → Triple P m (λ a. P) (λ e. P) → Keeps P m
  Keeps-triple m t = record { at = λ w p. go (m w) (t.run w p) }
    where
      go : (r : Result A × World) → Post (λ a. P) (λ e. P) r → P r.1
      go (ok a, w) p = p
      go (err e, w) p = p

-- The row of a query, when it does not matter which.
pub Post-one_row :
    {A : Type 0} (Q : A → World → Type 0) (E : Error → World → Type 0) (o : Option A) (w : World)
    → ((a : A) → Q a w)
    → E no_rows w
    → Post Q E (one_row o, w)
Post-one_row Q E none w q h = h
Post-one_row Q E (some a) w q h = q a

module _ (e : Environment) {A : Type 0} {P : World → Type 0} {Q : A → World → Type 0}
    {E : Error → World → Type 0} where
  -- The rule for a query: the fault, and what it does when it is served.
  pub Triple-statement :
      (run : ℕ → ℕ → Db → Result A × Db)
      → ((w : World) → P w → E server_error (record w { tick = w.tick + 1 }))
      → ((w : World)
          → P w
          → Post Q E (
              let (r, d) = run (e.time w.tick) (e.uuid w.tick) w.db in
              (r, record w { tick = w.tick + 1; db = d })))
      → Triple P (statement e run) Q E
  unfolding statement
  Triple-statement run fault serve = record { run = λ w p. go (e.fails w.tick) w p }
    where
      go :
          (b : Bool) (w : World)
          → P w
          → Post Q E (
              cond b
                (err server_error, record w { tick = w.tick + 1 })
                (let (r, d) = run (e.time w.tick) (e.uuid w.tick) w.db in
                  (r, record w { tick = w.tick + 1; db = d })))
      go true w p = fault w p
      go false w p = serve w p

  pub Triple-ask :
      (f : ℕ → A)
      → ((w : World) → P w → Q (f w.tick) (record w { tick = w.tick + 1 }))
      → Triple P (ask e f) Q E
  unfolding ask
  Triple-ask f h = record { run = h }

pub ok-injective : {A : Type 0} {a b : A} → ok a ≡ ok b → a ≡ b
ok-injective h = cc

-- What a triple says of a result that is at hand.
pub Triple-at :
    {A : Type 0} {P : World → Type 0} {m : M A} {Q : A → World → Type 0}
    {E : Error → World → Type 0}
    → Triple P m Q E
    → (w : World) (a : A) → P w
    → (m w).0 ≡ ok a
    → Q a (m w).1
Triple-at {A} {m = m} {Q = Q} {E = E} t w a p h = go (m w) h (t.run w p)
  where
    go : (r : Result A × World) → r.0 ≡ ok a → Post Q E r → Q a r.1
    go (ok b, w') same q = subst (λ x. Q x w') (ok-injective same) q
    go (err r, w') same q = cc

-- What a triple says of a method that never returns.
pub Triple-err :
    {A : Type 0} {P : World → Type 0} {m : M A} {E : Error → World → Type 0}
    → Triple P m (λ a w. ⊥) E
    → (w : World) → P w
    → (r : Error) × (((m w).0 ≡ err r) × E r (m w).1)
Triple-err {A} {m = m} {E = E} t w p = go (m w) (t.run w p)
  where
    go : (x : Result A × World) → Post (λ a w. ⊥) E x → (r : Error) × ((x.0 ≡ err r) × E r x.1)
    go (ok b, w') q = elim q [ ]
    go (err r, w') q = (r, (refl, q))
