-- ===== src/Tests/Lockout.antt =====
-- The lockout of a user, applied.
use goauth_server.Prelude.{◌≡◌, refl, false, some, [], ◌∷◌, select_first, exists}
use goauth_server.Model.{User}
use goauth_server.Environment.{Environment}
use goauth_server.Exec.{Error, World, ok, err}
use goauth_server.Auth.Service.{signed_leb, sub_time, duration}
use goauth_server.Auth.Login.{
  set_param, parse_params, hash_fields, list_length, bytes_eq, verify_argon2id, verify_credentials,
}
use goauth_server.Auth.Login.Counted.{LockedOut}
use goauth_server.Auth.Login.Locked.{lockout_begins}
use goauth_server.Tests.{counting, service, start, user2, runs}

abbrev locked_user : User
locked_user = record user2 { locked_until = some 100 }

abbrev locked : World
locked = record start { db = record start.db { users = locked_user ∷ [] } }

-- The clock stands still.
abbrev still : Environment
still = record counting { time = λ n. 5 }

mismatch :
    (v : World) → verify_argon2id still "pp" "$argon2id$v=19$m=65536,t=3,p=4$s$h" v ≡ (ok false, v)
unfolding runs set_param parse_params hash_fields list_length bytes_eq verify_argon2id
mismatch v = refl

lockout_begins_example :
    let (result, w) = verify_credentials still service "u@example.com" "pp" "127.0.0.1" start in
    (r : Error) × ((result ≡ err r) × LockedOut still service (λ k. refl) 2 r w)
unfolding select_first exists signed_leb sub_time duration
lockout_begins_example =
    lockout_begins still service (λ k. refl) "u@example.com" "pp" "127.0.0.1"
      "$argon2id$v=19$m=65536,t=3,p=4$s$h" start user2 0 refl refl refl refl refl mismatch refl
      (λ k. refl) refl
