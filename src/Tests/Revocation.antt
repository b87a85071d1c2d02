-- ===== src/Tests/Revocation.antt =====
-- The revocation of access tokens, applied.
use goauth_server.Prelude.{◌≡◌, ◌≢◌, refl, false, some, none, [], ◌∷◌}
use goauth_server.Model.{AccessToken}
use goauth_server.Exec.{ok, World}
use goauth_server.Repository.AccessTokens.{get_access_token, revoke_access_token, set_revoked}
use goauth_server.Auth.Revoke.{revoke_token, revoke_raw_token, is_token_revoked}
use goauth_server.Auth.Calls.{rotate, exchange, serve}
use goauth_server.Auth.Calls.StaysRevoked.{revoked_forever}
use goauth_server.Tests.{counting, service, ascii, start, runs}

abbrev pub token7 : AccessToken
token7 = record {
  id = 7;
  token_hash = "xxxxxx";
  client_id = some 1;
  user_id = 2;
  scope = none;
  expires_at = 100;
  is_revoked = some false;
  created_at = 0;
}

abbrev pub held : World
held = record start { db = record start.db { access_tokens = token7 ∷ [] } }

revoke_held : (revoke_raw_token counting "access" held).0 ≡ ok tt
unfolding runs get_access_token revoke_access_token set_revoked revoke_token revoke_raw_token
revoke_held = refl

revoked_forever_example :
    (is_token_revoked counting "access" (
      serve counting service ascii
        (rotate "t" "c1" "pw" ∷ exchange "code" 1 "pw" "https://app/cb" ∷ [])
        (revoke_raw_token counting "access" held).1)).0
    ≢ ok false
revoked_forever_example =
    revoked_forever counting service ascii "access" held revoke_held
      (rotate "t" "c1" "pw" ∷ exchange "code" 1 "pw" "https://app/cb" ∷ [])
