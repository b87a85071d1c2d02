-- ===== src/Api/Pagination.antt =====
-- internal/transport/http/api/v1/handler/handler.go. An `int` is the pattern of its 64 bits, an `int32`
-- of its 32 bits.
use goauth_server.Prelude.{
  ℕ, ◌%◌, ◌^◌, ◌≡◌, ap, sym, ◌≤◌, ◌<◌, refl, Bool, ◌&&◌, String, Option, none, some, leb, ltb,
  arith, if◌then◌else◌, Bool-cases, inl, inr,
}
use goauth_server.Environment.{Environment}
use goauth_server.Exec.{M, pure}
use goauth_server.Http.{Request, Reply, success, failure}

-- DefaultQuery
abbrev pub default_query : Option String → String → String
default_query none default = default
default_query (some s) default = s

-- 1 <= l <= 100 on signed 64-bit integers
abbrev pub valid_limit : ℕ → Bool
valid_limit l = leb 1 l && leb l 100

-- o >= 0 on signed 64-bit integers
abbrev pub valid_offset : ℕ → Bool
valid_offset o = ltb o (2 ^ 63)

abbrev pub checked_offset : ℕ → Option ℕ → Reply (ℕ × ℕ)
checked_offset l none = failure 400 "offset must be a non-negative integer"
checked_offset l (some o) =
    if valid_offset o
    then success 200 (l % 2 ^ 32, o % 2 ^ 32)
    else failure 400 "offset must be a non-negative integer"

abbrev pub checked_limit : Option ℕ → Option ℕ → Reply (ℕ × ℕ)
checked_limit none o = failure 400 "limit must be an integer between 1 and 100"
checked_limit (some l) o =
    if valid_limit l
    then checked_offset l o
    else failure 400 "limit must be an integer between 1 and 100"

-- A success has the limit and the offset as the handlers pass them on.
unfoldable pub parse_pagination_params : Environment → Request → Reply (ℕ × ℕ)
parse_pagination_params e r =
    checked_limit (e.atoi (default_query (r.query "limit") "20"))
      (e.atoi (default_query (r.query "offset") "0"))

-- `limit, offset, ok := parsePaginationParams(c); if !ok { return }`
abbrev pub with_page : {A : Type 0} → Reply (ℕ × ℕ) → (ℕ → ℕ → M (Reply A)) → M (Reply A)
with_page (success n p) f = f p.0 p.1
with_page (failure n text) f = pure (failure n text)

-- What is passed on where the two queries are read as `l` and `o`.
pub record Passed (o : Option ℕ) (limit offset : ℕ) : Type 0 where
  pub at_least : 1 ≤ limit
  pub at_most : limit ≤ 100
  pub asked : ℕ
  pub given : o ≡ some asked
  pub positive : asked < 2 ^ 63
  pub wrapped : offset ≡ asked % 2 ^ 32

success-injective : {n m : ℕ} {p q : ℕ × ℕ} → success n p ≡ success m q → p ≡ q
success-injective h = cc

passed :
    (l o limit offset : ℕ)
    → 1 ≤ l
    → l ≤ 100
    → l % 2 ^ 32 ≡ limit
    → o % 2 ^ 32 ≡ offset
    → o < 2 ^ 63
    → Passed (some o) limit offset
passed l o limit offset low high is_limit is_offset positive = record {
  at_least = omega arith;
  at_most = omega arith;
  asked = o;
  given = refl;
  positive = positive;
  wrapped = sym is_offset;
}

checked_offset-Passed :
    (l : ℕ) (o : Option ℕ) (n limit offset : ℕ)
    → 1 ≤ l
    → l ≤ 100
    → checked_offset l o ≡ success n (limit, offset)
    → Passed o limit offset
checked_offset-Passed l none n limit offset low high h = cc
checked_offset-Passed l (some o) n limit offset low high h = elim (Bool-cases (valid_offset o)) [
  | inl valid ↦
      let same : Path (ℕ × ℕ) (l % 2 ^ 32, o % 2 ^ 32) (limit, offset) =
        success-injective (rw valid at h) in
      passed l o limit offset low high (ap (λ p. p.0) same) (ap (λ p. p.1) same)
        (ground (arith, valid))
  | inr bad ↦ cc (rw bad at h)
]

checked_limit-Passed :
    (l o : Option ℕ) (n limit offset : ℕ)
    → checked_limit l o ≡ success n (limit, offset)
    → Passed o limit offset
checked_limit-Passed none o n limit offset h = cc
checked_limit-Passed (some l) o n limit offset h = elim (Bool-cases (valid_limit l)) [
  | inl valid ↦
      checked_offset-Passed l o n limit offset (ground (arith, valid)) (ground (arith, valid))
        (rw valid at h)
  | inr bad ↦ cc (rw bad at h)
]

-- The limit that a handler passes on lies between 1 and 100, and the offset is the one of the query,
-- which is less than 2 ^ 63, modulo 2 ^ 32.
pub parse_pagination_params_sound :
    (e : Environment) (r : Request) (n limit offset : ℕ)
    → parse_pagination_params e r ≡ success n (limit, offset)
    → Passed (e.atoi (default_query (r.query "offset") "0")) limit offset
unfolding parse_pagination_params
parse_pagination_params_sound e r n limit offset h =
    checked_limit-Passed (e.atoi (default_query (r.query "limit") "20")) _ n limit offset h
