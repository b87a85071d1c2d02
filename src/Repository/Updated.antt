-- ===== src/Repository/Updated.antt =====
-- What an update of a row by its identifier leaves to be found.
use goauth_server.Prelude.{
  ◌≡◌, refl, none, some, List, ◌==◌, ==_iff, select_first, update_where, select_first-update_where,
  select_first_sound,
}
use goauth_server.Model.{Uuid, User}

module _ {A : Type 0} (key : A → Uuid) (i : Uuid) (f : A → A) (rows : List A)
    (same : (r : A) → key (f r) ≡ key r) where
  -- The row that an update finds is the one that a search found before, changed.
  pub found_updated :
      (row : A)
      → select_first (λ r. key r == i) rows ≡ some row
      → select_first (λ r. key r == i) (update_where (λ r. key r == i) f rows) ≡ some (f row)
  found_updated row found =
      let moved =
        select_first-update_where (λ r. key r == i) (λ r. key r == i) f rows
          (λ r. rw (same r) refl) in
      let its = select_first_sound (λ r. key r == i) rows found in cc (moved, found, its)

  -- An update finds no row where a search found none.
  pub missing_updated :
      select_first (λ r. key r == i) rows ≡ none
      → select_first (λ r. key r == i) (update_where (λ r. key r == i) f rows) ≡ none
  missing_updated missing =
      let moved =
        select_first-update_where (λ r. key r == i) (λ r. key r == i) f rows
          (λ r. rw (same r) refl) in
      cc (moved, missing)

-- The same of the users.
pub find_updated :
    (i : Uuid) (f : User → User) (rows : List User) (row : User)
    → ((r : User) → (f r).id ≡ r.id)
    → select_first (λ r. r.id == i) rows ≡ some row
    → select_first (λ r. r.id == i) (update_where (λ r. r.id == i) f rows) ≡ some (f row)
find_updated i f rows row same found = found_updated (λ r. r.id) i f rows same row found

-- A row that was found by its identifier has it.
pub found_key :
    {A : Type 0} (key : A → Uuid) (i : Uuid) (rows : List A) (row : A)
    → select_first (λ r. key r == i) rows ≡ some row
    → key row ≡ i
found_key key i rows row found =
    (==_iff (key row) i).0 (select_first_sound (λ r. key r == i) rows found)
