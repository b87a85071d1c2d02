-- ===== src/Repository/Pages/Sorted.antt =====
-- What a page of a listing has: rows that pass the filter, the newest first, and no more than the
-- limit.
use goauth_server.Prelude.{
  ℕ, zero, suc, ◌≤◌, ◌^◌, ◌≡◌, subst, Bool, true, ◌&&◌, List, [], ◌∷◌, All, select_all, leb, ltb,
  Bool-cases, inl, inr, arith,
}
use goauth_server.Exec.{ok}
use goauth_server.Repository.Pages.{count, take, drop, page, insert, newest_first}

module _ {A : Type 0} where
  -- Each row is at least as new as those that follow.
  abbrev pub Sorted : (A → ℕ) → List A → Type 0
  Sorted key [] = Unit {0}
  Sorted key (r ∷ rows) = All (λ s. key s ≤ key r) rows × Sorted key rows

  module _ (P : A → Type 0) where
    All-take : (n : ℕ) (rows : List A) → All P rows → All P (take n rows)
    unfolding take
    All-take zero rows p = tt
    All-take (suc n) [] p = tt
    All-take (suc n) (r ∷ rows) p = (p.0, All-take n rows p.1)

    All-drop : (n : ℕ) (rows : List A) → All P rows → All P (drop n rows)
    unfolding drop
    All-drop zero rows p = p
    All-drop (suc n) [] p = tt
    All-drop (suc n) (r ∷ rows) p = All-drop n rows p.1

    All-insert :
        (key : A → ℕ) (a : A) (rows : List A) → P a → All P rows → All P (insert key a rows)
    unfolding insert
    All-insert key a [] p ps = (p, tt)
    All-insert key a (r ∷ rows) p ps = elim (Bool-cases (leb (key r) (key a))) [
      | inl h ↦ rw h (p, ps)
      | inr h ↦ rw h (ps.0, All-insert key a rows p ps.1)
    ]

    All-newest_first : (key : A → ℕ) (rows : List A) → All P rows → All P (newest_first key rows)
    unfolding newest_first
    All-newest_first key [] p = tt
    All-newest_first key (r ∷ rows) p =
        All-insert key r (newest_first key rows) p.0 (All-newest_first key rows p.1)

  All-weaken : (P Q : A → Type 0) (rows : List A) → ((a : A) → P a → Q a) → All P rows → All Q rows
  All-weaken P Q [] h p = tt
  All-weaken P Q (r ∷ rows) h p = (h r p.0, All-weaken P Q rows h p.1)

  All-select_all : (p : A → Bool) (rows : List A) → All (λ a. p a ≡ true) (select_all p rows)
  unfolding select_all
  All-select_all p [] = tt
  All-select_all p (r ∷ rows) = elim (Bool-cases (p r)) [
    | inl h ↦ rw h (h, All-select_all p rows)
    | inr h ↦ rw h (All-select_all p rows)
  ]

  module _ (key : A → ℕ) where
    Sorted-insert : (a : A) (rows : List A) → Sorted key rows → Sorted key (insert key a rows)
    unfolding insert
    Sorted-insert a [] s = (tt, tt)
    Sorted-insert a (r ∷ rows) s = elim (Bool-cases (leb (key r) (key a))) [
      | inl h ↦
          let newer : key r ≤ key a = ground (arith, h) in
          rw h ((newer, All-weaken _ _ rows (λ b older. omega arith) s.0), s)
      | inr h ↦ rw h (All-insert _ key a rows (ground (arith, h)) s.0, Sorted-insert a rows s.1)
    ]

    Sorted-newest_first : (rows : List A) → Sorted key (newest_first key rows)
    unfolding newest_first
    Sorted-newest_first [] = tt
    Sorted-newest_first (r ∷ rows) =
        Sorted-insert r (newest_first key rows) (Sorted-newest_first rows)

    Sorted-take : (n : ℕ) (rows : List A) → Sorted key rows → Sorted key (take n rows)
    unfolding take
    Sorted-take zero rows s = tt
    Sorted-take (suc n) [] s = tt
    Sorted-take (suc n) (r ∷ rows) s = (All-take _ n rows s.0, Sorted-take n rows s.1)

    Sorted-drop : (n : ℕ) (rows : List A) → Sorted key rows → Sorted key (drop n rows)
    unfolding drop
    Sorted-drop zero rows s = s
    Sorted-drop (suc n) [] s = tt
    Sorted-drop (suc n) (r ∷ rows) s = Sorted-drop n rows s.1

  count-take : (n : ℕ) (rows : List A) → count (take n rows) ≤ n
  unfolding take count
  count-take zero rows = omega arith
  count-take (suc n) [] = omega arith
  count-take (suc n) (r ∷ rows) = let rest = count-take n rows in omega arith

-- A page of the rows that pass a test.
pub record IsPage {A : Type 0} (key : A → ℕ) (p : A → Bool) (limit : ℕ) (rows : List A)
    : Type 0 where
  pub sorted : Sorted key rows
  pub matching : All (λ a. p a ≡ true) rows
  pub bounded : count rows ≤ limit

pub page-IsPage :
    {A : Type 0} (key : A → ℕ) (p : A → Bool) (limit offset : ℕ) (rows found : List A)
    → page limit offset (newest_first key (select_all p rows)) ≡ ok found
    → IsPage key p limit found
unfolding page
page-IsPage key p limit offset rows found h =
    elim (Bool-cases (ltb limit (2 ^ 31) && ltb offset (2 ^ 31))) [
      | inl served ↦ subst (IsPage key p limit) (cc (rw served at h)) (record {
        sorted =
            Sorted-take key limit _
              (Sorted-drop key offset _ (Sorted-newest_first key (select_all p rows)));
        matching =
            All-take _ limit _
              (All-drop _ offset _ (All-newest_first _ key _ (All-select_all p rows)));
        bounded = count-take limit _;
      })
      | inr refused ↦ cc (rw refused at h)
    ]
