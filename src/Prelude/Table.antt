-- ===== src/Prelude/Table.antt =====
-- A table is the list of its rows. These are the statements that the queries are made of.
use mathlib.Core.Option
use native.Mathlib.Omega.{arith}
use mathlib.Core.Path.{◌≡◌, refl, sym, ap, ◌∙◌}
use mathlib.Core.Logic.{◌⊎◌, inl, inr}
use mathlib.Core.Bool.{Bool, true, false, ◌||◌}
use mathlib.Core.Option.{Option, none, some, some-injective}
use mathlib.Core.List.{List, [], ◌∷◌}
use goauth_server.Prelude.Tests.{if◌then◌else◌, Bool-cases}

module _ {ℓ} {A : Type ℓ} where
  -- SELECT ... WHERE p LIMIT 1
  unfoldable pub select_first : (A → Bool) → List A → Option A
  select_first p [] = none
  select_first p (r ∷ rows) = if p r then some r else select_first p rows

  -- SELECT ... WHERE p
  unfoldable pub select_all : (A → Bool) → List A → List A
  select_all p [] = []
  select_all p (r ∷ rows) = let rest = select_all p rows in if p r then r ∷ rest else rest

  -- UPDATE ... SET f WHERE p
  unfoldable pub update_where : (A → Bool) → (A → A) → List A → List A
  update_where p f [] = []
  update_where p f (r ∷ rows) = (if p r then f r else r) ∷ update_where p f rows

  unfoldable pub exists : (A → Bool) → List A → Bool
  exists p [] = false
  exists p (r ∷ rows) = p r || exists p rows

-- Every row has the property.
abbrev pub All {ℓ} : {A : Type ℓ} → (A → Type 0) → List A → Type 0
All P [] = Unit {0}
All P (r ∷ rows) = P r × All P rows

module _ {ℓ} {A : Type ℓ} where
  -- A search finds the first row, if it passes the test, or what it finds among the others.
  pub select_first-cons :
      (p : A → Bool) (r a : A) (rows : List A)
      → select_first p (r ∷ rows) ≡ some a
      → ((p r ≡ true) × (r ≡ a)) ⊎ ((p r ≡ false) × (select_first p rows ≡ some a))
  unfolding select_first
  select_first-cons p r a rows h = elim (Bool-cases (p r)) [
    | inl e ↦ inl (e, some-injective _ _ (rw e at h))
    | inr e ↦ inr (e, rw e at h)
  ]

  -- What a search finds passes its test.
  pub select_first_sound :
      (p : A → Bool) (rows : List A) {a : A} → select_first p rows ≡ some a → p a ≡ true
  unfolding select_first
  select_first_sound p [] h = cc
  select_first_sound p (r ∷ rows) {a} h = elim (select_first-cons p r a rows h) [
    | inl (e, same) ↦ ap p (sym same) ∙ e
    | inr (e, later) ↦ select_first_sound p rows later
  ]

  -- A search that an update does not disturb finds the updated row.
  pub select_first-update_where :
      (p q : A → Bool) (f : A → A) (rows : List A)
      → ((r : A) → p (f r) ≡ p r)
      → select_first p (update_where q f rows)
        ≡ Option.map (λ r. if q r then f r else r) (select_first p rows)
  unfolding select_first update_where
  select_first-update_where p q f [] h = refl
  select_first-update_where p q f (r ∷ rows) h =
      ground (arith, select_first-update_where p q f rows h, h r)

  -- What no row passes, no search finds.
  pub exists-select_first :
      (p q : A → Bool) (rows : List A)
      → exists (λ r. p r || q r) rows ≡ false
      → select_first p rows ≡ none
  unfolding exists select_first
  exists-select_first p q [] h = refl
  exists-select_first p q (r ∷ rows) h = ground (arith, exists-select_first p q rows)
