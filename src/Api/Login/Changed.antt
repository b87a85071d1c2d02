-- ===== src/Api/Login/Changed.antt =====
-- What stands behind an access token that the change of a password returns.
use goauth_server.Prelude.{
  subst, ℕ, ◌≡◌, refl, ap, ◌∙◌, String, Bool, true, false, some, if◌then◌else◌,
}
use goauth_server.Model.{Uuid}
use goauth_server.Environment.{Environment}
use goauth_server.Exec.{Error, Result, ok, err, World, pure, ◌>>=◌, attempt}
use goauth_server.Exec.Hoare.{ok-injective}
use goauth_server.Http.{Reply, success, failure, or_answer, answer, errors_is}
use goauth_server.Password.{Unicode}
use goauth_server.Auth.Service.{Service}
use goauth_server.Auth.Challenge.{validate_challenge_token}
use goauth_server.Auth.ChangePassword.{ChangePasswordResult, change_password}
use goauth_server.Api.Login.{
  ChangePasswordRequest, LoginAnswer, access, is_satisfied, is_user_not_found, handle_change_error,
  answer_changed, change_password_handler,
}

module _ (e : Environment) (s : Service) (u : Unicode) (req : ChangePasswordRequest)
    (w : World) where
  -- The challenge token of the request was accepted, and the password of its user was changed.
  pub record Completed : Type 0 where
    pub user_id : Uuid
    pub accepted : (validate_challenge_token e s req.challenge_token w).0 ≡ ok user_id
    pub result : ChangePasswordResult
    pub changed :
        (change_password e s u user_id req.new_password
          (validate_challenge_token e s req.challenge_token w).1).0
        ≡ ok result

-- No error is answered as a success.
abbrev IsFailure : Reply LoginAnswer → Type 0
IsFailure (success n a) = ⊥
IsFailure (failure n text) = Unit {0}

handle_change_error-IsFailure : (x : Error) → IsFailure (handle_change_error x)
unfolding handle_change_error
handle_change_error-IsFailure x = go (errors_is is_satisfied x) (errors_is is_user_not_found x)
  where
    go :
        (satisfied missing : Bool)
        → IsFailure (
            if satisfied
            then failure 409 "password_change_already_satisfied"
            else if missing
            then failure 400 "invalid_challenge_token"
            else failure 400 "invalid_new_password")
    go true missing = tt
    go false true = tt
    go false false = tt

-- Where the change of a password answers with an access token, it has accepted the challenge token of
-- the request, and has changed the password of the user that the challenge token names.
pub change_access_sound :
    (e : Environment) (s : Service) (u : Unicode) (req : ChangePasswordRequest) (w : World)
    (n k : ℕ) (token : String)
    → (change_password_handler e s u (some req) w).0 ≡ ok (success n (access token k))
    → Completed e s u req w
unfolding change_password_handler or_answer attempt ◌>>=◌ pure
change_access_sound e s u req w n k token h =
    go (validate_challenge_token e s req.challenge_token w) refl h
  where
    next :
        (user : Uuid) (w' : World)
        → validate_challenge_token e s req.challenge_token w ≡ (ok user, w')
        → (r : Result ChangePasswordResult × World)
        → change_password e s u user req.new_password w' ≡ r
        → (answer handle_change_error (answer_changed e s user) r.0 r.1).0
          ≡ ok (success n (access token k))
        → Completed e s u req w
    next user w' same (ok result, w'') it h = record {
      user_id = user;
      accepted = ap (λ r. r.0) same;
      result = result;
      changed =
          ap (λ r. (change_password e s u user req.new_password r.1).0) same ∙ ap (λ r. r.0) it;
    }
    next user w' same (err x, w'') it h =
        elim (subst IsFailure (ok-injective h) (handle_change_error-IsFailure x)) [ ]

    go :
        (r : Result Uuid × World)
        → validate_challenge_token e s req.challenge_token w ≡ r
        → (answer
            (λ x. failure 400 "invalid_challenge_token")
            (λ user.
              or_answer
                (change_password e s u user req.new_password)
                handle_change_error
                (answer_changed e s user))
            r.0
            r.1).0
          ≡ ok (success n (access token k))
        → Completed e s u req w
    go (ok user, w') same h = next user w' same _ refl h
    go (err x, w') same h = cc
