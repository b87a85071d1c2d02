-- ===== src/Api/Login/Forced.antt =====
-- A user that must change the password gets no access token from the login.
use goauth_server.Prelude.{ℕ, ◌≡◌, refl, ap, subst, String, Bool, true, false, some, if◌then◌else◌}
use goauth_server.Environment.{Environment}
use goauth_server.Exec.{Error, Result, ok, err, World, pure, ◌>>=◌, attempt}
use goauth_server.Exec.Hoare.{Post, Post-trivial, ok-injective, Triple, Triple-pure, Triple-if}
use goauth_server.Exec.Facts.{Any}
use goauth_server.Http.{Request, Reply, success, failure, or_answer, answer, errors_is}
use goauth_server.Http.Answers.{Triple-or_answer}
use goauth_server.Auth.Service.{Service}
use goauth_server.Auth.Login.{VerifyCredentialsResult, verify_credentials}
use goauth_server.Api.Login.{
  LoginRequest, LoginAnswer, challenge, access, is_account_locked, is_invalid_credentials,
  handle_login_error, extract_source_ip, answer_challenge, answer_access, answer_login,
  login_handler,
}

module _ (e : Environment) (s : Service) (w : World) (req : LoginRequest) (ip : String) where
  -- The login has verified the credentials, of a user that need not change the password.
  pub record Admitted : Type 0 where
    pub result : VerifyCredentialsResult
    pub verified : (verify_credentials e s req.email req.password ip w).0 ≡ ok result
    pub unforced : result.force_password_change ≡ false

  abbrev OnAccess : Reply LoginAnswer → World → Type 0
  OnAccess (success n (access token k)) w' = Admitted
  OnAccess (success n (challenge token)) w' = Unit {0}
  OnAccess (failure n text) w' = Unit {0}

  failure-OnAccess : (x : Error) (w' : World) → OnAccess (handle_login_error x) w'
  unfolding handle_login_error
  failure-OnAccess x w' = go (errors_is is_account_locked x) (errors_is is_invalid_credentials x)
    where
      go :
          (locked invalid : Bool)
          → OnAccess
              (if locked
                then failure 429 "account_locked"
                else if invalid
                then failure 401 "invalid_credentials"
                else failure 500 "server_error")
              w'
      go true invalid = tt
      go false true = tt
      go false false = tt

  answer_challenge-OnAccess :
      (v : VerifyCredentialsResult) → Triple (λ w. Unit {0}) (answer_challenge e s v) OnAccess Any
  unfolding answer_challenge
  answer_challenge-OnAccess v =
      Triple-or_answer (λ t w. Unit {0}) Any _ _ _ (record { run = λ w p. Post-trivial _ })
        (λ token. Triple-pure _ λ w p. tt) (λ x w p. tt)

  answer_access-OnAccess :
      (v : VerifyCredentialsResult)
      → Admitted
      → Triple (λ w. Unit {0}) (answer_access e s v) OnAccess Any
  unfolding answer_access
  answer_access-OnAccess v admitted =
      Triple-or_answer (λ t w. Unit {0}) Any _ _ _ (record { run = λ w p. Post-trivial _ })
        (λ token.
          Triple-or_answer (λ t w. Unit {0}) Any _ _ _ (record { run = λ w p. Post-trivial _ })
            (λ x.
              Triple-or_answer (λ t w. Unit {0}) Any _ _ _ (record { run = λ w p. Post-trivial _ })
                (λ y. Triple-pure _ λ w p. admitted) (λ x w p. tt))
            (λ x w p. tt))
        (λ x w p. tt)

  answer_login-OnAccess :
      (v : VerifyCredentialsResult)
      → (verify_credentials e s req.email req.password ip w).0 ≡ ok v
      → Triple (λ w. Unit {0}) (answer_login e s v) OnAccess Any
  unfolding answer_login
  answer_login-OnAccess v verified =
      Triple-if _ _ _ (λ forced. answer_challenge-OnAccess v)
        λ unforced.
          answer_access-OnAccess v (record { result = v; verified = verified; unforced = unforced })

  login-OnAccess : Post OnAccess Any (
      or_answer
        (verify_credentials e s req.email req.password ip)
        handle_login_error
        (answer_login e s)
        w)
  unfolding or_answer attempt ◌>>=◌ pure
  login-OnAccess = go (verify_credentials e s req.email req.password ip w) refl
    where
      go :
          (r : Result VerifyCredentialsResult × World)
          → verify_credentials e s req.email req.password ip w ≡ r
          → Post OnAccess Any (answer handle_login_error (answer_login e s) r.0 r.1)
      go (ok v, w') h = (answer_login-OnAccess v (ap (λ r. r.0) h)).run w' tt
      go (err x, w') h = failure-OnAccess x w'

-- Where the login answers with an access token, it has verified the credentials of the request, and
-- the user need not change the password.
pub login_access_sound :
    (e : Environment) (s : Service) (r : Request) (req : LoginRequest) (w : World) (n k : ℕ)
    (token : String)
    → (login_handler e s r (some req) w).0 ≡ ok (success n (access token k))
    → Admitted e s w req (extract_source_ip e r)
unfolding login_handler pure
login_access_sound e s r req w n k token h = go (e.valid_address req.email) h
  where
    go :
        (b : Bool)
        → ((if b
              then or_answer
                  (verify_credentials e s req.email req.password (extract_source_ip e r))
                  handle_login_error
                  (answer_login e s)
              else pure (failure 400 "invalid_request"))
            w).0
          ≡ ok (success n (access token k))
        → Admitted e s w req (extract_source_ip e r)
    go true h = from _ (login-OnAccess e s w req (extract_source_ip e r)) h
      where
        from :
            (x : Result (Reply LoginAnswer) × World)
            → Post (OnAccess e s w req (extract_source_ip e r)) Any x
            → x.0 ≡ ok (success n (access token k))
            → Admitted e s w req (extract_source_ip e r)
        from (ok a, w') p same =
            subst (λ a. OnAccess e s w req (extract_source_ip e r) a w') (ok-injective same) p
        from (err a, w') p same = cc
    go false h = cc
