-- ===== src/Prelude/Text.antt =====
-- Operations on texts that the program calls.
use Prim.Native.Nat.{ℕ, ◌+◌, ◌-◌, ◌*◌, ◌^◌}
use Prim.Native.Char.{Char, code}
use Prim.Native.String.{String}
use mathlib.Core.Path.{◌≡◌, refl}
use mathlib.Core.Bool.{Bool, true, ◌||◌, ◌&&◌}
use mathlib.Core.List.{List, [], ◌∷◌}
use mathlib.Core.Option.{Option, none, some}
use text.Mathlib.Text.{starts_with}
use goauth_server.Prelude.Tests.{str_eq, ltb, leb, ◌==◌, if◌then◌else◌}

-- strings.Contains(s, sub)
unfoldable pub contains : String → String → Bool
contains String.[] sub = starts_with String.[] sub
contains (String.◌∷◌ c s) sub = starts_with (String.◌∷◌ c s) sub || contains s sub

-- internal/util/strptr.go, and `nonEmptyStrPtr` of the auth service
unfoldable pub str_ptr : String → Option String
str_ptr s = if str_eq s "" then none else some s

-- the value behind a pointer, "" for nil
abbrev pub or_empty : Option String → String
or_empty none = ""
or_empty (some s) = s

abbrev onto_first : Char → List String → List String
onto_first c [] = String.◌∷◌ c String.[] ∷ []
onto_first c (s ∷ ss) = String.◌∷◌ c s ∷ ss

-- strings.Split at a separator of one character
unfoldable pub split : ℕ → String → List String
split sep String.[] = "" ∷ []
split sep (String.◌∷◌ c s) =
    let rest = split sep s in if code c == sep then "" ∷ rest else onto_first c rest

abbrev onto_cut : Char → Option (String × String) → Option (String × String)
onto_cut c none = none
onto_cut c (some (s, t)) = some (String.◌∷◌ c s, t)

-- strings.SplitN(s, sep, 2), `none` where there is no separator
unfoldable pub cut : ℕ → String → Option (String × String)
cut sep String.[] = none
cut sep (String.◌∷◌ c s) = if code c == sep then some ("", s) else onto_cut c (cut sep s)

unfoldable pub digits : ℕ → String → Option ℕ
digits n String.[] = some n
digits n (String.◌∷◌ c s) =
    let rest = digits (n * 10 + (code c - 48)) s in
    if leb 48 (code c) && leb (code c) 57 then rest else none

-- strconv.ParseUint(s, 10, 32)
unfoldable pub parse_uint32 : String → Option ℕ
unfolding digits
parse_uint32 s =
    if str_eq s ""
    then none
    else elim (digits 0 s) [ none ↦ none | some n ↦ if ltb n (2 ^ 32) then some n else none ]

-- the code points of a text
unfoldable pub codes : String → List ℕ
codes String.[] = []
codes (String.◌∷◌ c s) = code c ∷ codes s

unfoldable pub str_append : String → String → String
str_append String.[] t = t
str_append (String.◌∷◌ c s) t = String.◌∷◌ c (str_append s t)

contains_middle : contains "openid offline_access email" "offline_access" ≡ true
unfolding contains
contains_middle = refl

split_fields : split b'$' "$argon2id$v=19" ≡ "" ∷ "argon2id" ∷ "v=19" ∷ []
unfolding split
split_fields = refl

parse_uint32_bounds : (parse_uint32 "65536" ≡ some 65536) × (parse_uint32 "4294967296" ≡ none)
unfolding parse_uint32 digits
parse_uint32_bounds = (refl, refl)
