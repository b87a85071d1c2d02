-- ===== src/Middleware/Csrf/Passed.antt =====
-- What a request has shown that passes the CSRF middleware.
use goauth_server.Prelude.{
  ℕ, ◌≡◌, ◌∙◌, refl, Bool, true, false, str_eq, String, Option, some, none, List, arith, Bool-cases,
  inl, inr, if◌then◌else◌,
}
use goauth_server.Environment.{Environment}
use goauth_server.Exec.{World, ok}
use goauth_server.Exec.Hoare.{
  Triple, Triple-bind, Triple-pure, Triple-if, Triple-ask, Triple-lift_option, Triple-at,
}
use goauth_server.Exec.Facts.{Any, Triple-assume}
use goauth_server.Http.{Request, Gate, next, abort}
use goauth_server.Http.Answers.{Triple-or_answer, Passes}
use goauth_server.Auth.Service.{generate_random_bytes}
use goauth_server.Middleware.Csrf.{
  changes_state, generate_csrf_token, verify_csrf, gate_csrf, new_cookie, with_cookie,
  csrf_middleware,
}
use goauth_server.Middleware.Csrf.Compare.{secure_compare_iff}

module _ (e : Environment) (r : Request) where
  -- The token is that of the cookie, or is made of 32 random bytes.
  pub data Source (token : String) : Type 0 where
    sent : r.cookie "csrf_token" ≡ some token → Source token
    made : (k : ℕ) (b : List ℕ) → e.random k 32 ≡ some b → token ≡ e.hex_encode b → Source token

  -- The method changes no state, or the header is present and has the bytes of the token.
  pub data Echoed (token : String) : Type 0 where
    harmless : changes_state r.method ≡ false → Echoed token
    echoed :
        str_eq (r.header "X-CSRF-Token") "" ≡ false
        → e.utf8 (r.header "X-CSRF-Token") ≡ e.utf8 token
        → Echoed token

  verify_csrf-Echoed : (token : String) → verify_csrf e r token ≡ true → Echoed token
  unfolding verify_csrf
  verify_csrf-Echoed token h = elim (Bool-cases (changes_state r.method)) [
    | inl changes ↦ echoed (ground (arith, changes, h)) (
        (secure_compare_iff (e.utf8 (r.header "X-CSRF-Token")) (e.utf8 token)).0
          (ground (arith, changes, h)))
    | inr harmless_ ↦ harmless harmless_
  ]

  -- What holds where the middleware goes on.
  abbrev pub OnNext : Gate String → World → Type 0
  OnNext = Passes (λ token w. Source token × Echoed token)

  gate_csrf-OnNext : (token : String) (w : World) → Source token → OnNext (gate_csrf e r token) w
  unfolding gate_csrf
  gate_csrf-OnNext token w source = go (verify_csrf e r token) refl
    where
      go : (b : Bool) → verify_csrf e r token ≡ b → OnNext (if b then next token else abort 403) w
      go true h = (source, verify_csrf-Echoed token h)
      go false h = tt

  generate_csrf_token-made :
      Triple
        (λ w. Unit {0})
        (generate_csrf_token e)
        (λ token w.
          Unit {0}
          × ((k : ℕ) × (b : List ℕ) × ((e.random k 32 ≡ some b) × (token ≡ e.hex_encode b))))
        Any
  unfolding generate_csrf_token generate_random_bytes
  generate_csrf_token-made =
      Triple-bind (λ b w. Unit {0} × ((k : ℕ) × (e.random k 32 ≡ some b))) _ _
        (Triple-bind (λ o w. Unit {0} × ((k : ℕ) × (e.random k 32 ≡ o))) _ _
          (Triple-ask e _ λ w p. (tt, (w.tick, refl)))
          λ o. Triple-lift_option _ o (λ b w it p. (tt, (p.1.0, p.1.1 ∙ it))) (λ w p. tt))
        λ b. Triple-assume _ λ (k, it). Triple-pure _ λ w p. (tt, (k, b, (it, refl)))

  new_cookie-OnNext : Triple (λ w. Unit {0}) (new_cookie e r) OnNext Any
  unfolding new_cookie
  new_cookie-OnNext =
      Triple-or_answer _ _ _ _ _ generate_csrf_token-made
        (λ token.
          Triple-assume _
            λ (k, b, (it, same)). Triple-pure _ λ w p. gate_csrf-OnNext token w (made k b it same))
        (λ x w p. tt)

  with_cookie-OnNext :
      (cookie : Option String)
      → r.cookie "csrf_token" ≡ cookie
      → Triple (λ w. Unit {0}) (with_cookie e r cookie) OnNext Any
  with_cookie-OnNext none h = new_cookie-OnNext
  with_cookie-OnNext (some token) h =
      Triple-if (str_eq token "") _ _ (λ empty. new_cookie-OnNext)
        (λ other. Triple-pure _ λ w p. gate_csrf-OnNext token w (sent h))

  pub csrf_middleware-OnNext : Triple (λ w. Unit {0}) (csrf_middleware e r) OnNext Any
  unfolding csrf_middleware
  csrf_middleware-OnNext = with_cookie-OnNext (r.cookie "csrf_token") refl

  -- Where the CSRF middleware lets a request pass, the token is the one of the request's cookie, or
  -- is made of 32 random bytes for a new cookie; and the method changes no state, or the header
  -- X-CSRF-Token is not empty and has the token's bytes.
  pub csrf_sound :
      (w : World) (token : String)
      → (csrf_middleware e r w).0 ≡ ok (next token)
      → Source token × Echoed token
  csrf_sound w token h = Triple-at csrf_middleware-OnNext w (next token) tt h
