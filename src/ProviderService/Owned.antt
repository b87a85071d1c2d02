-- ===== src/ProviderService/Owned.antt =====
-- Only the client that a provider belongs to changes it.
use goauth_server.Prelude.{◌≡◌, refl, false, some, none, ◌==◌, select_first}
use goauth_server.Model.{Uuid, OauthProvider}
use goauth_server.Environment.{Environment}
use goauth_server.Exec.{
  err, World, M, provider_client_mismatch, map_error, statement, guard, ◌>>=◌, pure,
}
use goauth_server.Repository.Providers.{get_oauth_provider}
use goauth_server.ProviderService.{
  Providers, find_provider, validate_ownership, enable_provider, disable_provider, delete_provider,
  update_provider,
}
use goauth_server.ProviderService.Validation.{UpdateProviderDto, validate_update_provider_dto}

-- The method is refused, and nothing is written.
pub record Refused {A : Type 0} (w : World) (m : M A) : Type 0 where
  pub mismatch : (m w).0 ≡ err provider_client_mismatch
  pub unwritten : (m w).1.db ≡ w.db

-- Where the search for the provider does not fail and finds one of another client, the provider is not
-- enabled, disabled, deleted or updated with valid data: each is refused as a mismatch, and nothing is
-- written.
pub foreign_provider-Refused :
    (e : Environment) (s : Providers) (dto : UpdateProviderDto) (w : World) (id client : Uuid)
    (p : OauthProvider)
    → e.fails w.tick ≡ false
    → select_first (λ r. r.id == id) w.db.providers ≡ some p
    → (p.client_id == client) ≡ false
    → validate_update_provider_dto e s.env dto ≡ none
    → Refused w (enable_provider e id client)
      × (Refused w (disable_provider e id client)
          × (Refused w (delete_provider e id client)
              × Refused w (update_provider e s id client dto)))
unfolding enable_provider disable_provider delete_provider update_provider validate_ownership
    find_provider get_oauth_provider map_error statement guard ◌>>=◌ pure
foreign_provider-Refused e s dto w id client p served found foreign valid = (
  record {
    mismatch = rw (served, found, foreign) refl;
    unwritten = rw (served, found, foreign) refl;
  },
  (
    record {
      mismatch = rw (served, found, foreign) refl;
      unwritten = rw (served, found, foreign) refl;
    },
    (
      record {
        mismatch = rw (served, found, foreign) refl;
        unwritten = rw (served, found, foreign) refl;
      },
      record {
        mismatch = rw (valid, served, found, foreign) refl;
        unwritten = rw (valid, served, found, foreign) refl;
      },
    ),
  ),
)
