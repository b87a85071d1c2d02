-- ===== src/Password.antt =====
-- internal/util/password: the policy for new passwords. The Unicode tables and the mapping to lower case
-- are the Go library's.
pub mod Denylist
pub mod Policy
use goauth_server.Prelude.{
  ℕ, suc, String, Bool, true, false, not, ◌&&◌, ◌||◌, Option, none, some, List, [], ◌∷◌, ◌==◌, ltb,
  leb, str_eq, contains, cut, codes, exists, if◌then◌else◌,
}
use goauth_server.Exec.{Result, ok, err, failure}
use Denylist.{denylist}

pub record Unicode : Type 0 where
  pub is_upper : ℕ → Bool
  pub is_lower : ℕ → Bool
  pub is_digit : ℕ → Bool
  pub to_lower : String → String

abbrev pub special_chars : String
special_chars = "!@#$%^&*()-_=+[]{}|;:'\",.<>?/~`"

-- strings.ContainsRune
unfoldable pub contains_rune : List ℕ → ℕ → Bool
contains_rune [] r = false
contains_rune (c ∷ cs) r = c == r || contains_rune cs r

unfoldable pub count_runes : List ℕ → ℕ
count_runes [] = 0
count_runes (c ∷ cs) = suc (count_runes cs)

pub record Classes : Type 0 where
  pub upper : Bool
  pub lower : Bool
  pub digit : Bool
  pub special : Bool

abbrev pub no_classes : Classes
no_classes = record { upper = false; lower = false; digit = false; special = false }

module _ (u : Unicode) where
  -- the switch on one rune
  unfoldable pub classify : ℕ → Classes → Classes
  unfolding contains_rune
  classify r c =
      if u.is_upper r && leb r b'Z'
      then record c { upper = true }
      else if u.is_lower r && leb b'a' r
      then record c { lower = true }
      else if u.is_digit r
      then record c { digit = true }
      else if contains_rune (codes special_chars) r
      then record c { special = true }
      else c

  -- the loop over the runes
  unfoldable pub classify_all : List ℕ → Classes → Classes
  classify_all [] c = c
  classify_all (r ∷ rs) c = classify_all rs (classify r c)

  -- the lower-case password is one of the lower-case entries
  unfoldable pub is_denied : String → Bool
  unfolding denylist
  is_denied password = exists (λ entry. str_eq (u.to_lower entry) (u.to_lower password)) denylist

  abbrev local_part : String → Option (String × String) → String
  local_part email none = email
  local_part email (some (before, rest)) = before

  -- rule 7
  unfoldable pub contains_email : String → String → Bool
  contains_email password email =
      let local = local_part email (cut b'@' email) in
      not (str_eq email "")
      && (not (str_eq local "") && contains (u.to_lower password) (u.to_lower local))

  unfoldable pub validate : String → String → Result (Unit {0})
  validate password email =
      let c = classify_all (codes password) no_classes in
      if ltb (count_runes (codes password)) 12
      then err (failure "password must be at least 12 characters long")
      else if not c.upper
      then err (failure "password must contain at least one uppercase letter (A-Z)")
      else if not c.lower
      then err (failure "password must contain at least one lowercase letter (a-z)")
      else if not c.digit
      then err (failure "password must contain at least one digit (0-9)")
      else if not c.special
      then err (failure "password must contain at least one special character")
      else if is_denied password
      then err (failure "password is too common; please choose a more unique password")
      else if contains_email password email
      then err (failure "password must not contain your email address")
      else ok tt
