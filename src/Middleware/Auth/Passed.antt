-- ===== src/Middleware/Auth/Passed.antt =====
-- What a request has shown that passes the middleware.
use goauth_server.Prelude.{
  ℕ, ◌≡◌, refl, Bool, true, false, ◌==◌, str_eq, is_true, String, Option, some, none, select_first,
  Option-cases, Bool-cases, inl, inr, ap, ◌∙◌,
}
use goauth_server.Model.{Uuid, User, AccessToken, Db}
use goauth_server.Environment.{Environment, Claims}
use goauth_server.Exec.{World, pure, raise, attempt, ◌>>=◌, statement, map_error}
use goauth_server.Exec.Hoare.{Triple, Triple-bind, Triple-pure, Triple-ask, Triple-lift_option}
use goauth_server.Exec.Facts.{Any, Unchanged, Triple-assume}
use goauth_server.Http.{Request, Context, Gate, abort}
use goauth_server.Http.Answers.{Triple-or_answer, Passes}
use goauth_server.Auth.Service.{sha256_hex, validate_access_token}
use goauth_server.Auth.Revoke.{is_token_revoked, token_revoked}
use goauth_server.Repository.AccessTokens.{get_access_token}
use goauth_server.Repository.Users.{get_user_by_id}
use goauth_server.UserService.{is_admin}
use goauth_server.Middleware.Auth.{
  bearer_token, check_revoked, check_admin, with_uuid, with_user_id, check_token, auth_middleware,
  admin_middleware,
}

-- The access token with the hash is unknown, or known and not revoked.
pub data Unrevoked (d : Db) (hash : String) : Type 0 where
  unknown : select_first (λ r. str_eq r.token_hash hash) d.access_tokens ≡ none → Unrevoked d hash
  live :
      (t : AccessToken)
      → select_first (λ r. str_eq r.token_hash hash) d.access_tokens ≡ some t
      → is_true t.is_revoked ≡ false
      → Unrevoked d hash

-- The user with the identifier is in the table and has the flag of an administrator.
pub record Administrator (d : Db) (id : Uuid) : Type 0 where
  pub user : User
  pub found : select_first (λ r. r.id == id) d.users ≡ some user
  pub flag : user.is_admin ≡ some true

module _ (e : Environment) (d : Db) where
  -- What AuthMiddleware has checked where it goes on with `c`.
  pub record Authenticated (r : Request) (c : Context) : Type 0 where
    pub token : String
    pub presented : bearer_token r ≡ some token
    pub claims : Claims
    pub reading : ℕ
    pub valid : e.parse_es256 reading token ≡ some claims
    pub unrevoked : Unrevoked d (sha256_hex e token)
    pub raw_token : c.raw_token ≡ some token
    pub user_id : c.user_id ≡ some claims.user_id

  -- What AdminMiddleware has checked where it goes on.
  pub record Authorized (c : Context) : Type 0 where
    pub raw_id : String
    pub present : c.user_id ≡ some raw_id
    pub id : Uuid
    pub parsed : e.parse_uuid raw_id ≡ some id
    pub administrator : Administrator d id

  abbrev pub OnNext : {A : Type 0} → (A → Type 0) → Gate A → World → Type 0
  OnNext P = Passes (λ a w. Unchanged d w × P a)

  -- The verdict of the check for revocation.
  data Verdict (hash : String) : Bool → Type 0 where
    bad : Verdict hash true
    good : Unrevoked d hash → Verdict hash false

  verdict :
      (hash : String) (t : AccessToken)
      → select_first (λ r. str_eq r.token_hash hash) d.access_tokens ≡ some t
      → (b : Bool) → is_true t.is_revoked ≡ b
      → Verdict hash b
  verdict hash t found true h = bad
  verdict hash t found false h = good (live t found h)

  is_token_revoked-Verdict :
      (token : String)
      → Triple
          (Unchanged d)
          (is_token_revoked e token)
          (λ b w. Unchanged d w × Verdict (sha256_hex e token) b)
          Any
  unfolding is_token_revoked get_access_token attempt ◌>>=◌ token_revoked pure raise statement
  is_token_revoked-Verdict token = record {
    run = λ w p. elim (Bool-cases (e.fails w.tick)) [
      | inl fault ↦ rw fault tt
      | inr served ↦
          elim (Option-cases
            (select_first (λ r. str_eq r.token_hash (sha256_hex e token)) d.access_tokens)) [
              | inl nothing ↦
                  rw (served, p.same, nothing) (record { same = refl }, good (unknown nothing))
              | inr (t, it) ↦
                  rw (served, p.same, it)
                    (record { same = refl }, verdict (sha256_hex e token) t it _ refl)
            ]
    ];
  }

  validate_access_token-claims :
      (token : String)
      → Triple
          (Unchanged d)
          (validate_access_token e token)
          (λ claims w. Unchanged d w × ((k : ℕ) × (e.parse_es256 k token ≡ some claims)))
          Any
  unfolding validate_access_token
  validate_access_token-claims token =
      Triple-bind (λ o w. Unchanged d w × ((k : ℕ) × (e.parse_es256 k token ≡ o))) _ _
        (Triple-ask e _ λ w p. (record { same = p.same }, (w.tick, refl)))
        λ o. Triple-lift_option _ o (λ claims w it p. (p.0, (p.1.0, p.1.1 ∙ it))) (λ w p. tt)

  module _ (r : Request) where
    check_revoked-Authenticated :
        (token : String)
        → bearer_token r ≡ some token
        → (claims : Claims) (k : ℕ) → e.parse_es256 k token ≡ some claims
        → (b : Bool) → Verdict (sha256_hex e token) b
        → Triple (Unchanged d) (check_revoked e token claims b) (OnNext (Authenticated r)) Any
    check_revoked-Authenticated token presented claims k valid true v =
        Triple-pure (abort 401) (λ w p. tt)
    check_revoked-Authenticated token presented claims k valid false (good unrevoked) =
        Triple-pure _ λ w p. (
          p,
          record {
            token = token;
            presented = presented;
            claims = claims;
            reading = k;
            valid = valid;
            unrevoked = unrevoked;
            raw_token = refl;
            user_id = refl;
          },
        )

    check_token-Authenticated :
        (o : Option String)
        → bearer_token r ≡ o
        → Triple (Unchanged d) (check_token e o) (OnNext (Authenticated r)) Any
    unfolding check_token
    check_token-Authenticated none h = Triple-pure (abort 401) (λ w p. tt)
    check_token-Authenticated (some token) h =
        Triple-or_answer _ _ _ _ _ (validate_access_token-claims token)
          (λ claims. Triple-assume _ λ (k, valid).
            Triple-or_answer _ _ _ _ _ (is_token_revoked-Verdict token)
              (λ b. Triple-assume _ λ v. check_revoked-Authenticated token h claims k valid b v)
              (λ x w p. tt))
          (λ x w p. tt)

    pub auth_middleware-Authenticated :
        Triple (Unchanged d) (auth_middleware e r) (OnNext (Authenticated r)) Any
    unfolding auth_middleware
    auth_middleware-Authenticated = check_token-Authenticated (bearer_token r) refl

  is_true-some : (o : Option Bool) → is_true o ≡ true → o ≡ some true
  is_true-some none h = cc
  is_true-some (some b) h = ap some h

  is_admin-Administrator :
      (id : Uuid)
      → Triple
          (Unchanged d)
          (is_admin e id)
          (λ b w. Unchanged d w × (b ≡ true → Administrator d id))
          Any
  unfolding is_admin get_user_by_id statement map_error ◌>>=◌ pure
  is_admin-Administrator id = record {
    run = λ w p. elim (Bool-cases (e.fails w.tick)) [
      | inl fault ↦ rw fault tt
      | inr served ↦ elim (Option-cases (select_first (λ r. r.id == id) d.users)) [
        | inl nothing ↦ rw (served, p.same, nothing) tt
        | inr (u, it) ↦
            rw (served, p.same, it)
              (
                record { same = refl },
                λ flag. record { user = u; found = it; flag = is_true-some u.is_admin flag },
              )
      ]
    ];
  }

  check_admin-Authorized :
      (c : Context) (b : Bool)
      → (b ≡ true → Authorized c)
      → Triple (Unchanged d) (check_admin e c b) (OnNext (λ c'. (c' ≡ c) × Authorized c')) Any
  check_admin-Authorized c true h = Triple-pure _ λ w p. (p, (refl, h refl))
  check_admin-Authorized c false h = Triple-pure _ λ w p. tt

  with_uuid-Authorized :
      (c : Context) (raw : String)
      → c.user_id ≡ some raw
      → (o : Option Uuid) → e.parse_uuid raw ≡ o
      → Triple (Unchanged d) (with_uuid e c o) (OnNext (λ c'. (c' ≡ c) × Authorized c')) Any
  with_uuid-Authorized c raw present none parsed = Triple-pure _ λ w p. tt
  with_uuid-Authorized c raw present (some id) parsed =
      Triple-or_answer _ _ _ _ _ (is_admin-Administrator id)
        (λ b. Triple-assume _ λ flag. check_admin-Authorized c b λ yes. record {
          raw_id = raw;
          present = present;
          id = id;
          parsed = parsed;
          administrator = flag yes;
        })
        (λ x w p. tt)

  with_user_id-Authorized :
      (c : Context) (o : Option String)
      → c.user_id ≡ o
      → Triple (Unchanged d) (with_user_id e c o) (OnNext (λ c'. (c' ≡ c) × Authorized c')) Any
  with_user_id-Authorized c none present = Triple-pure _ λ w p. tt
  with_user_id-Authorized c (some raw) present =
      with_uuid-Authorized c raw present (e.parse_uuid raw) refl

  pub admin_middleware-Authorized :
      (c : Context)
      → Triple (Unchanged d) (admin_middleware e c) (OnNext (λ c'. (c' ≡ c) × Authorized c')) Any
  unfolding admin_middleware
  admin_middleware-Authorized c = with_user_id-Authorized c c.user_id refl
