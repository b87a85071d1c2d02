-- ===== src/Tests/Rotation.antt =====
-- The rotation of refresh tokens, applied.
use goauth_server.Prelude.{
  ℕ, ◌≤◌, exists, ◌≡◌, ◌≢◌, refl, true, str_eq, select_first, some, [], ◌∷◌, arith,
}
use goauth_server.Exec.{World, ok, err, invalid_grant}
use goauth_server.Repository.Frames.{On, refresh_rows}
use goauth_server.Auth.Service.{TokenResponse, sha256_hex}
use goauth_server.Auth.Rotation.{rotate_record, rotate_refresh_token}
use goauth_server.Auth.Rotation.Stale.{stale_rotations}
use goauth_server.Auth.Rotation.Granted.{Authentic, Rotated, rotate_sound}
use goauth_server.Auth.Rotation.Replay.{replay_revokes}
use goauth_server.Auth.Rotation.Single.{Single}
use goauth_server.Auth.Rotation.Family.{live}
use goauth_server.Auth.Calls.{exchange, rotate, serve}
use goauth_server.Auth.Calls.OneLive.{serve-Single}
use goauth_server.Auth.Calls.SingleUse.{rotate_once}
use goauth_server.Tests.{counting, service, ascii, start, client1, token3, token4, unary, runs}

abbrev response : TokenResponse
response = record {
  access_token = unary 86;
  token_type = "Bearer";
  expires_in = 3600;
  scope = some "openid offline_access";
  refresh_token = unary 29;
}

rotate_start : (rotate_refresh_token counting service "t" "c1" "pw" start).0 ≡ ok response
unfolding runs
rotate_start = refl

start-Single : On refresh_rows (Single counting) start
unfolding refresh_rows live
start-Single = record {
  holds = record { single = λ family. ground arith; fresh = λ k h. ground arith };
}

rotate_sound_example :
    Rotated counting service start.db "t" "c1" "pw" response
      (rotate_refresh_token counting service "t" "c1" "pw" start).1
rotate_sound_example = rotate_sound counting service "t" "c1" "pw" start response rotate_start

serve-Single_example : On refresh_rows (Single counting) (
    serve counting service ascii
      (rotate "t" "c1" "pw" ∷ exchange "code" 1 "pw" "https://app/cb" ∷ [])
      start)
serve-Single_example =
    serve-Single counting service ascii (λ j k h. omega arith)
      (rotate "t" "c1" "pw" ∷ exchange "code" 1 "pw" "https://app/cb" ∷ []) start start-Single

rotate_once_example :
    (rotate_refresh_token counting service "t" "c1" "pw" (
      serve counting service ascii
        (exchange "code" 1 "pw" "https://app/cb" ∷ [])
        (rotate_refresh_token counting service "t" "c1" "pw" start).1)).0
    ≢ ok response
rotate_once_example =
    rotate_once counting service ascii "t" "c1" "pw" start response rotate_start
      (exchange "code" 1 "pw" "https://app/cb" ∷ []) "c1" "pw" response

-- The start, with the refresh token revoked.
abbrev replayed : World
replayed = record start {
  db = record start.db { refresh_tokens = record token3 { is_revoked = true } ∷ token4 ∷ [] };
}

client1-Authentic : Authentic counting replayed.db 1 "pw"
unfolding runs
client1-Authentic = record { client = client1; found = refl; active = refl; secret_hash = refl }

found_replayed :
    select_first (λ r. str_eq r.token_hash (sha256_hex counting "t")) replayed.db.refresh_tokens
    ≡ some (record token3 { is_revoked = true })
unfolding runs
found_replayed = refl

replay_revokes_example :
    let (result, w) = rotate_refresh_token counting service "t" "c1" "pw" replayed in
    (result ≡ err invalid_grant) × (live 30 w.db.refresh_tokens ≡ 0)
replay_revokes_example =
    replay_revokes counting service (λ k. refl) "t" "c1" "pw" 1
      (record token3 { is_revoked = true }) replayed refl client1-Authentic found_replayed refl

abbrev issued : ℕ → ℕ → TokenResponse
issued access refresh = record response {
  access_token = unary access;
  refresh_token = unary refresh;
}

rotate_record_twice :
    ((rotate_record counting service token3 1 start).0 ≡ ok (issued 84 27))
    × ((rotate_record counting service token3 1 (rotate_record counting service token3 1 start).1).0
        ≡ ok (issued 95 38))
unfolding runs
rotate_record_twice = (refl, refl)

stale_rotations_example :
    2
    ≤ live 30
        (rotate_record counting service token3 1
          (rotate_record counting service token3 1 start).1).1.db.refresh_tokens
unfolding exists
stale_rotations_example =
    stale_rotations counting service token3 1 start (issued 84 27) (issued 95 38) refl
      rotate_record_twice.0 rotate_record_twice.1
