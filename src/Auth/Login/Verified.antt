-- ===== src/Auth/Login/Verified.antt =====
-- What a login that succeeds has checked, and what it leaves behind.
use goauth_server.Prelude.{
  ℕ, ◌≡◌, ◌⊎◌, inl, inr, refl, ap, ◌∙◌, String, true, false, ◌&&◌, ◌^◌, ◌%◌, Option, none, some,
  List, [], ◌∷◌, split, str_eq, select_first, arith, Bool-cases,
}
use goauth_server.Model.{Uuid, Time, User, Db}
use goauth_server.Environment.{Environment}
use goauth_server.Exec.{World, ok}
use goauth_server.Exec.Hoare.{
  Triple, Triple-bind, Triple-map_error, Triple-pure, Triple-raise, Triple-if, Triple-at,
}
use goauth_server.Exec.Facts.{
  Any, Unchanged, Triple-assume, Triple-weaken_post, after_guard, after_option, after_result,
  after_unknown, after_query, after_ask,
}
use goauth_server.Repository.Users.{get_user_by_email_for_auth}
use goauth_server.Repository.Frames.{On, user_rows}
use goauth_server.Auth.Service.{Service, after, signed_leb, time_now}
use goauth_server.Auth.Login.Recorded.{
  Admitted, reset_login_attempts-Clean, time_now-Clean, update_last_login-Admitted,
}
use goauth_server.Auth.Login.{
  VerifyCredentialsResult, HashParams, hash_fields, parse_params, no_params, list_length, bytes_eq,
  verify_argon2id, check_lockout, count_failure, lock_account, refuse_login, record_login,
  verify_credentials,
}

bytes_eq_sound : (xs ys : List ℕ) → bytes_eq xs ys ≡ true → xs ≡ ys
unfolding bytes_eq
bytes_eq_sound [] [] h = refl
bytes_eq_sound [] (y ∷ ys) h = ground arith
bytes_eq_sound (x ∷ xs) [] h = ground arith
bytes_eq_sound (x ∷ xs) (y ∷ ys) h = ground (arith, bytes_eq_sound xs ys)

module _ (e : Environment) where
  -- The stored text is an Argon2id hash, and the key that Argon2id derives from the password with its
  -- parameters and its salt is the one stored.
  pub record Matches (password encoded : String) : Type 0 where
    pub params : String
    pub salt64 : String
    pub hash64 : String
    pub fields : hash_fields (split b'$' encoded) ≡ some (params, salt64, hash64)
    pub parsed : HashParams
    pub parses : parse_params (split b',' params) no_params ≡ ok parsed
    pub salt : List ℕ
    pub decoded_salt : e.base64_decode salt64 ≡ some salt
    pub stored : List ℕ
    pub decoded_hash : e.base64_decode hash64 ≡ some stored
    pub derived :
        e.id_key password salt parsed.iterations parsed.memory parsed.parallelism
          (list_length stored % 2 ^ 32)
        ≡ some stored

  -- There is no lockout, or it has passed at a reading of the clock.
  pub data Unlocked : Option Time → Type 0 where
    never : Unlocked none
    passed :
        (until : Time) (reading : ℕ) → after until (e.time reading) ≡ false → Unlocked (some until)

  verify_argon2id-Matches :
      {P : World → Type 0} (password encoded : String)
      → Triple P
          (verify_argon2id e password encoded)
          (λ b w. Unit {0} × ((b ≡ false) ⊎ Matches password encoded))
          Any
  unfolding verify_argon2id
  verify_argon2id-Matches password encoded = after_option _ _ _ λ (params, salt64, hash64) fields.
      after_result _ _ λ p parses. after_option _ _ _ λ salt decoded_salt.
        after_option _ _ _ λ stored decoded_hash. after_option _ _ _ λ computed derived.
          Triple-pure _ λ w h. elim (Bool-cases (bytes_eq computed stored)) [
            | inl same ↦ (
              tt,
              inr (record {
                params = params;
                salt64 = salt64;
                hash64 = hash64;
                fields = fields;
                parsed = p;
                parses = parses;
                salt = salt;
                decoded_salt = decoded_salt;
                stored = stored;
                decoded_hash = decoded_hash;
                derived = derived ∙ ap some (bytes_eq_sound computed stored same);
              }),
            )
            | inr other ↦ (tt, inl other)
          ]

module _ (e : Environment) (s : Service) where
  -- What the result of a login shows of the user with the identifier.
  pub record Recorded (i : Uuid) (r : VerifyCredentialsResult) (w : World) : Type 0 where
    pub admitted : On user_rows (Admitted e i r.user) w
    pub flag : r.force_password_change ≡ r.user.force_password_change

  record_login-Recorded :
      (user : User) → Triple (λ w. Unit {0}) (record_login e s user) (Recorded user.id) Any
  unfolding record_login
  record_login-Recorded user =
      Triple-bind _ _ _ (Triple-map_error _ _ (reset_login_attempts-Clean e user.id)) λ _.
        Triple-bind _ _ _ (time_now-Clean e user.id) λ now. Triple-assume _ λ (k, reads).
          Triple-bind _ _ _
            (Triple-map_error _ _ (update_last_login-Admitted e user.id now k reads))
            λ updated. Triple-pure _ λ w p. record { admitted = p; flag = refl }

  module _ {P : World → Type 0} {Q : VerifyCredentialsResult → World → Type 0} (user : User)
      (email source_ip : String) where
    lock_account-refuses : Triple P (lock_account e s user email source_ip) Q Any
    unfolding lock_account
    lock_account-refuses =
        after_unknown _ _
          λ now. after_unknown _ _ λ row. after_unknown _ _ λ _. Triple-raise _ (λ w p. tt)

    refuse_login-refuses : Triple P (refuse_login e s user email source_ip) Q Any
    unfolding refuse_login
    refuse_login-refuses = after_unknown _ _ λ _. Triple-raise _ (λ w p. tt)

  -- No path of a failure returns.
  count_failure-refuses :
      {P : World → Type 0} {Q : VerifyCredentialsResult → World → Type 0} (user : User)
      (email source_ip : String)
      → Triple P (count_failure e s user email source_ip) Q Any
  unfolding count_failure
  count_failure-refuses user email source_ip = after_unknown _ _ λ updated.
      after_unknown _ _ λ within.
        Triple-if (signed_leb s.cfg.max_attempts updated.failed_login_attempts && within)
          (lock_account e s user email source_ip) (refuse_login e s user email source_ip)
          (λ _. lock_account-refuses user email source_ip)
          (λ _. refuse_login-refuses user email source_ip)

  check_lockout-Unlocked :
      {d : Db} (i : Uuid) (until : Option Time)
      → Triple (Unchanged d) (check_lockout e s i until) (λ a w. Unit {0} × Unlocked e until) Any
  unfolding check_lockout time_now
  check_lockout-Unlocked i none = Triple-pure tt (λ w p. (tt, never))
  check_lockout-Unlocked {d} i (some until) = after_ask e d _ _ λ k.
      after_guard _ _ _
        λ over. after_unknown _ _ λ row. Triple-pure tt (λ w p. (tt, passed until k (ground arith)))

  -- What a login shows that returned `r`, when it began in the database `d`.
  pub record LoggedIn (d : Db) (email password : String) (r : VerifyCredentialsResult) (w : World)
      : Type 0 where
    pub user : User
    pub found : select_first (λ x. str_eq x.email email) d.users ≡ some user
    pub unlocked : Unlocked e user.locked_until
    pub encoded : String
    pub hashed : user.password_hash ≡ some encoded
    pub matches : Matches e password encoded
    pub recorded : Recorded user.id r w

  verify_credentials-LoggedIn :
      (d : Db) (email password source_ip : String)
      → Triple
          (Unchanged d)
          (verify_credentials e s email password source_ip)
          (LoggedIn d email password)
          Any
  unfolding verify_credentials get_user_by_email_for_auth
  verify_credentials-LoggedIn d email password source_ip =
      after_query e d _ (λ d'. select_first (λ x. str_eq x.email email) d'.users) _
        λ user found. Triple-bind _ _ _ (check_lockout-Unlocked user.id user.locked_until) λ _.
          Triple-assume _ λ unlocked. after_option _ _ _ λ encoded hashed.
            Triple-bind _ _ _ (Triple-map_error _ _ (verify_argon2id-Matches e password encoded))
              λ b. Triple-assume _ λ checked.
                Triple-if b _ _
                  (λ matched.
                    Triple-weaken_post _
                      (λ r w p. record {
                        user = user;
                        found = found;
                        unlocked = unlocked;
                        encoded = encoded;
                        hashed = hashed;
                        matches = elim checked [ inl other ↦ cc (matched, other) | inr m ↦ m ];
                        recorded = p;
                      })
                      (record_login-Recorded user))
                  (λ _. count_failure-refuses user email source_ip)

-- A login that succeeds found a user with the email address and a stored hash; there was no lockout, or it had
-- passed at a reading of the clock; the hash is an Argon2id hash, and Argon2id derives the stored key
-- from the password. Then the user that is returned is the stored one, with the time of the login,
-- and no failure and no lockout of this user is on record; the result has its flag for a change of the password.
pub login_sound :
    (e : Environment) (s : Service) (email password source_ip : String) (w : World)
    (r : VerifyCredentialsResult)
    → (verify_credentials e s email password source_ip w).0 ≡ ok r
    → LoggedIn e s w.db email password r (verify_credentials e s email password source_ip w).1
login_sound e s email password source_ip w r h =
    Triple-at (verify_credentials-LoggedIn e s w.db email password source_ip) w r
      (record { same = refl }) h
