-- ===== src/Repository/Pages.antt =====
-- ORDER BY created_at DESC LIMIT $1 OFFSET $2, and COUNT(*). SQL leaves the order of rows of one time
-- open; here they keep the order of the table. A limit and an offset are the patterns of 32-bit
-- integers: the server refuses a negative one.
pub mod Sorted
use goauth_server.Prelude.{
  ℕ, zero, suc, ◌^◌, Bool, true, false, ◌&&◌, not, Option, none, some, List, [], ◌∷◌, leb, ltb,
  if◌then◌else◌,
}
use goauth_server.Exec.{Result, ok, err, server_error}

-- column = $1, for a column that is never NULL
abbrev pub bool_eq : Bool → Bool → Bool
bool_eq true c = c
bool_eq false c = not c

-- column = $1, for a column that may be NULL
abbrev pub is_set_to : Bool → Option Bool → Bool
is_set_to b none = false
is_set_to b (some c) = bool_eq b c

-- `if limit <= 0 { limit = 20 }` on the pattern of a 32-bit integer
abbrev pub default_limit : ℕ → ℕ
default_limit limit = if ltb 0 limit && ltb limit (2 ^ 31) then limit else 20

module _ {A : Type 0} where
  unfoldable pub count : List A → ℕ
  count [] = 0
  count (r ∷ rows) = suc (count rows)

  unfoldable pub take : ℕ → List A → List A
  take zero rows = []
  take (suc n) [] = []
  take (suc n) (r ∷ rows) = r ∷ take n rows

  unfoldable pub drop : ℕ → List A → List A
  drop zero rows = rows
  drop (suc n) [] = []
  drop (suc n) (r ∷ rows) = drop n rows

  unfoldable pub page : ℕ → ℕ → List A → Result (List A)
  page limit offset rows =
      if ltb limit (2 ^ 31) && ltb offset (2 ^ 31)
      then ok (take limit (drop offset rows))
      else err server_error

  module _ (key : A → ℕ) where
    unfoldable pub insert : A → List A → List A
    insert a [] = a ∷ []
    insert a (r ∷ rows) =
        let rest = insert a rows in if leb (key r) (key a) then a ∷ r ∷ rows else r ∷ rest

    unfoldable pub newest_first : List A → List A
    newest_first [] = []
    newest_first (r ∷ rows) = insert r (newest_first rows)
