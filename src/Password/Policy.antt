-- ===== src/Password/Policy.antt =====
-- The policy as a description of the passwords that are accepted.
use goauth_server.Prelude.{
  ℕ, ◌≤◌, ◌≡◌, ◌↔◌, String, Bool, true, false, not, ◌&&◌, ◌||◌, List, [], ◌∷◌, leb, codes, exists,
  arith,
}
use goauth_server.Exec.{ok}
use goauth_server.Password.{
  Unicode, Classes, contains_rune, count_runes, special_chars, no_classes, classify, classify_all,
  is_denied, contains_email, validate,
}

module _ (u : Unicode) where
  -- The four kinds of runes: each is tested for where the ones before it do not apply.
  abbrev pub upper_rune : ℕ → Bool
  upper_rune r = u.is_upper r && leb r b'Z'

  abbrev pub lower_rune : ℕ → Bool
  lower_rune r = not (upper_rune r) && (u.is_lower r && leb b'a' r)

  abbrev pub digit_rune : ℕ → Bool
  digit_rune r = not (upper_rune r) && (not (lower_rune r) && u.is_digit r)

  abbrev pub special_rune : ℕ → Bool
  special_rune r =
      not (upper_rune r)
      && (not (lower_rune r) && (not (u.is_digit r) && contains_rune (codes special_chars) r))

  -- A password that is long enough, has a rune of each kind, is not a common one, and does not contain
  -- the local part of the email address.
  pub record Acceptable (password email : String) : Type 0 where
    pub long : 12 ≤ count_runes (codes password)
    pub upper : exists upper_rune (codes password) ≡ true
    pub lower : exists lower_rune (codes password) ≡ true
    pub digit : exists digit_rune (codes password) ≡ true
    pub special : exists special_rune (codes password) ≡ true
    pub uncommon : is_denied u password ≡ false
    pub anonymous : contains_email u password email ≡ false

  -- What the loop has found.
  pub record Seen (rs : List ℕ) (c : Classes) (found : Classes) : Type 0 where
    pub upper : found.upper ≡ (c.upper || exists upper_rune rs)
    pub lower : found.lower ≡ (c.lower || exists lower_rune rs)
    pub digit : found.digit ≡ (c.digit || exists digit_rune rs)
    pub special : found.special ≡ (c.special || exists special_rune rs)

  classify_all-Seen : (rs : List ℕ) (c : Classes) → Seen rs c (classify_all u rs c)
  unfolding classify_all exists classify
  classify_all-Seen [] c = record {
    upper = ground arith;
    lower = ground arith;
    digit = ground arith;
    special = ground arith;
  }
  classify_all-Seen (r ∷ rs) c =
      let h = classify_all-Seen rs (classify u r c) in
      record {
        upper = ground (arith, h.upper);
        lower = ground (arith, h.lower);
        digit = ground (arith, h.digit);
        special = ground (arith, h.special);
      }

  accepted-Acceptable :
      (password email : String) → validate u password email ≡ ok tt → Acceptable password email
  unfolding validate
  accepted-Acceptable password email h =
      let seen = classify_all-Seen (codes password) no_classes in
      record {
        long = ground (arith, h);
        upper = ground (arith, h, seen.upper);
        lower = ground (arith, h, seen.lower);
        digit = ground (arith, h, seen.digit);
        special = ground (arith, h, seen.special);
        uncommon = ground (arith, h);
        anonymous = ground (arith, h);
      }

  Acceptable-accepted :
      (password email : String) → Acceptable password email → validate u password email ≡ ok tt
  unfolding validate
  Acceptable-accepted password email a =
      let seen = classify_all-Seen (codes password) no_classes in
      ground (
        arith, a.long, a.upper, a.lower, a.digit, a.special, a.uncommon, a.anonymous, seen.upper,
        seen.lower, seen.digit, seen.special,
      )

-- The validator accepts exactly the passwords of twelve or more runes that have an upper-case letter, a
-- lower-case letter, a digit and a special character, are not on the list of common passwords, and do
-- not contain the local part of the email address.
pub validate_iff :
    (u : Unicode) (password email : String)
    → (validate u password email ≡ ok tt) ↔ Acceptable u password email
validate_iff u password email =
    (accepted-Acceptable u password email, Acceptable-accepted u password email)
