-- ===== src/Tests/Clients.antt =====
-- The services of clients and sessions, applied.
use goauth_server.Prelude.{
  ◌≡◌, ◌≢◌, ◌↔◌, refl, String, true, none, some, [], ◌∷◌, str_eq, select_all, map, if◌then◌else◌,
}
use goauth_server.Environment.{Environment}
use goauth_server.Exec.{ok, World}
use goauth_server.Http.{success}
use goauth_server.Repository.Clients.{
  new_client, create_client, delete_client, regenerate_client_secret, set_secret, set_inactive,
}
use goauth_server.Repository.Pages.{page, take, drop, insert, newest_first, count}
use goauth_server.Repository.AccessTokens.{list_access_tokens, count_access_tokens}
use goauth_server.Auth.Service.{TokenResponse}
use goauth_server.Auth.Rotation.{check_client, rotate_refresh_token}
use goauth_server.Auth.Authorization.{exchange_code_for_token}
use goauth_server.Auth.Calls.{rotate, serve}
use goauth_server.ClientService.{
  ClientWithSecret, to_client, create_client_app, regenerate_secret, delete_client_app,
}
use goauth_server.ClientService.Secret.{Stored, create_client_sound, regenerate_secret_sound}
use goauth_server.ClientService.Deleted.{deleted_client_refused}
use goauth_server.ClientService.Validation.{
  CreateClientDto, validate_create_dto, validate_fields, validate_redirect_uri, first_error,
}
use goauth_server.ClientService.Validation.Accepted.{ValidFields, validate_create_dto_iff}
use goauth_server.SessionService.{ListParams, TokenList, to_access_token, list_token_page}
use goauth_server.Api.Pagination.{
  Passed, default_query, parse_pagination_params, parse_pagination_params_sound,
}
use goauth_server.Tests.{counting, service, ascii, start, runs, unary}
use goauth_server.Tests.Middleware.{post}
use goauth_server.Tests.Revocation.{token7, held}

abbrev dto : CreateClientDto
dto = record {
  name = "new";
  description = none;
  redirect_uris = "https://app/cb" ∷ [];
  grant_types = "authorization_code" ∷ [];
  is_active = true;
}

validate_create_dto_iff_example :
    (validate_create_dto counting "production" dto ≡ none)
    ↔ ValidFields counting "production" "new" ("https://app/cb" ∷ []) ("authorization_code" ∷ [])
validate_create_dto_iff_example = validate_create_dto_iff counting "production" dto

-- The first question is for the 32 bytes of the secret, the second is the statement.
abbrev created : ClientWithSecret
created = record {
  client = record {
    id = 1001;
    name = "new";
    description = none;
    redirect_uris = "https://app/cb" ∷ [];
    grant_types = "authorization_code" ∷ [];
    is_active = true;
    created_by = 2;
    created_at = 1;
    updated_at = 1;
  };
  plain_secret = unary 20;
}

creates : (create_client_app counting "production" dto 2 start).0 ≡ ok created
unfolding runs create_client_app validate_create_dto validate_fields validate_redirect_uri
    first_error create_client new_client to_client
creates = refl

create_client_sound_example :
    (stored : Stored counting (create_client_app counting "production" dto 2 start).1.db created)
    × ((w' : World) → true ≡ true → (check_client counting stored.row (unary 20) w').0 ≡ ok tt)
create_client_sound_example = create_client_sound counting "production" dto 2 start created creates

abbrev regenerated : ClientWithSecret
regenerated = record {
  client = record {
    id = 1;
    name = "app";
    description = none;
    redirect_uris = "https://app/cb" ∷ [];
    grant_types = "authorization_code" ∷ [];
    is_active = true;
    created_by = 2;
    created_at = 0;
    updated_at = 2;
  };
  plain_secret = unary 21;
}

regenerates : (regenerate_secret counting true 1 start).0 ≡ ok regenerated
unfolding runs regenerate_secret regenerate_client_secret set_secret to_client
regenerates = refl

regenerate_secret_sound_example :
    (stored : Stored counting (regenerate_secret counting true 1 start).1.db regenerated)
    × ((w' : World) → true ≡ true → (check_client counting stored.row (unary 21) w').0 ≡ ok tt)
regenerate_secret_sound_example =
    regenerate_secret_sound counting true 1 start regenerated regenerates

deletes : (delete_client_app counting 1 start).0 ≡ ok tt
unfolding runs delete_client_app delete_client set_inactive
deletes = refl

deleted_client_refused_example :
    ((code client_secret redirect_uri : String) (r : TokenResponse)
      → (exchange_code_for_token counting service code 1 client_secret redirect_uri (
          serve counting service ascii
            (rotate "t" "c1" "pw" ∷ [])
            (delete_client_app counting 1 start).1)).0
        ≢ ok r)
    × ((raw_token raw_id client_secret : String) (r : TokenResponse)
        → counting.parse_uuid raw_id ≡ some 1
        → (rotate_refresh_token counting service raw_token raw_id client_secret (
            serve counting service ascii
              (rotate "t" "c1" "pw" ∷ [])
              (delete_client_app counting 1 start).1)).0
          ≢ ok r)
deleted_client_refused_example =
    deleted_client_refused counting service ascii 1 start deletes (rotate "t" "c1" "pw" ∷ [])

abbrev filter : ListParams
filter = record { client_id = some 1; user_id = some 2; is_revoked = none; limit = 1; offset = 0 }

abbrev listing : TokenList
listing = record { tokens = map to_access_token (token7 ∷ []); total = 1 }

lists : (list_token_page counting filter held).0 ≡ ok listing
unfolding runs list_token_page list_access_tokens count_access_tokens page take drop newest_first
    insert count select_all
lists = refl

-- The limit of the request reads as 5.
abbrev reading : Environment
reading = record counting { atoi = λ s. if str_eq s "0" then some 0 else some 5 }

parses : parse_pagination_params reading post ≡ success 200 (5, 0)
unfolding parse_pagination_params
parses = refl

parse_pagination_params_sound_example :
    Passed (reading.atoi (default_query (post.query "offset") "0")) 5 0
parse_pagination_params_sound_example = parse_pagination_params_sound reading post 200 5 0 parses
