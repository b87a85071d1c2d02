-- ===== src/Tests/Exchange.antt =====
-- The exchange of authorization codes, applied.
use goauth_server.Prelude.{◌≡◌, ◌≢◌, refl, some, [], ◌∷◌}
use goauth_server.Exec.{ok}
use goauth_server.Repository.Codes.{get_authorization_code, mark_authorization_code_used, set_used}
use goauth_server.Auth.Service.{TokenResponse}
use goauth_server.Auth.Authorization.{
  check_code, issue_code_token, issue_refresh_token, redeem_code, exchange_code_for_token,
}
use goauth_server.Auth.Authorization.Granted.{Exchanged, exchange_sound}
use goauth_server.Auth.Calls.{rotate, serve}
use goauth_server.Auth.Calls.CodeOnce.{exchange_once}
use goauth_server.Tests.{counting, service, ascii, start, unary, runs}

abbrev response : TokenResponse
response = record {
  access_token = unary 86;
  token_type = "Bearer";
  expires_in = 3600;
  scope = some "openid offline_access";
  refresh_token = unary 29;
}

exchange_start :
    (exchange_code_for_token counting service "code" 1 "pw" "https://app/cb" start).0 ≡ ok response
unfolding runs check_code issue_code_token issue_refresh_token redeem_code exchange_code_for_token
    get_authorization_code mark_authorization_code_used set_used
exchange_start = refl

exchange_sound_example :
    Exchanged counting start.db "code" 1 "pw" "https://app/cb" response
      (exchange_code_for_token counting service "code" 1 "pw" "https://app/cb" start).1
exchange_sound_example =
    exchange_sound counting service "code" 1 "pw" "https://app/cb" start response exchange_start

exchange_once_example :
    (exchange_code_for_token counting service "code" 1 "pw" "https://app/cb" (
      serve counting service ascii
        (rotate "t" "c1" "pw" ∷ [])
        (exchange_code_for_token counting service "code" 1 "pw" "https://app/cb" start).1)).0
    ≢ ok response
exchange_once_example =
    exchange_once counting service ascii "code" 1 "pw" "https://app/cb" start response
      exchange_start (rotate "t" "c1" "pw" ∷ []) 1 "pw" "https://app/cb" response
