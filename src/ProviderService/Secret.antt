-- ===== src/ProviderService/Secret.antt =====
-- The secret of a provider is stored encrypted, and read back in plain.
use goauth_server.Prelude.{
  ℕ, ◌≡◌, refl, ap, ◌∙◌, String, false, ◌||◌, ◌&&◌, ◌==◌, ==_refl, some, List, str_eq, select_first,
  exists, Bool-cases, inl, inr,
}
use goauth_server.Model.{Db, Uuid, OauthProvider}
use goauth_server.Environment.{Environment}
use goauth_server.Exec.{ok, World, ◌>>=◌, pure, map_error, lift_result, statement}
use goauth_server.Exec.Hoare.{
  Triple, Triple-bind, Triple-pure, Triple-map_error, Triple-statement, Triple-at,
}
use goauth_server.Exec.Facts.{Any, Triple-assume, after_unknown}
use goauth_server.Repository.Providers.{
  CreateOauthProviderParams, new_provider, create_oauth_provider, get_oauth_provider,
}
use goauth_server.ProviderService.{
  Providers, ProviderView, ProviderWithSecret, to_oauth_provider, find_provider, reveal,
  get_provider_with_secret, create_provider,
}
use goauth_server.ProviderService.Encryption.{decrypt}
use goauth_server.ProviderService.Encryption.RoundTrip.{Sealed, encrypt-decrypts}
use goauth_server.ProviderService.Validation.{CreateProviderDto}

-- The row that the provider's identifier finds, with what it decrypts to.
record Kept (e : Environment) (key : List ℕ) (plaintext : String) (p : ProviderView) (d : Db)
    : Type 0 where
  row : OauthProvider
  found : select_first (λ r. r.id == p.id) d.providers ≡ some row
  viewed : to_oauth_provider row ≡ p
  decrypts : decrypt e key row.provider_client_secret ≡ ok plaintext

module _ (e : Environment) where
  create_oauth_provider-found :
      (arg : CreateOauthProviderParams)
      → Triple
          (λ w. Unit {0})
          (create_oauth_provider e arg)
          (λ row w.
            (select_first (λ r. r.id == row.id) w.db.providers ≡ some row)
            × (row.provider_client_secret ≡ arg.provider_client_secret))
          Any
  unfolding create_oauth_provider new_provider select_first
  create_oauth_provider-found arg =
      Triple-statement e _ (λ w p. tt)
        λ w p.
          elim (Bool-cases (
            exists
              (λ r.
                (r.client_id == arg.client_id && str_eq r.name arg.name) || r.id == e.uuid w.tick)
              w.db.providers)) [
                | inl taken ↦ rw taken tt
                | inr free ↦ rw (free, ==_refl (e.uuid w.tick)) (refl, refl)
              ]

  create_provider-Kept :
      (s : Providers) (client : Uuid) (dto : CreateProviderDto)
      → Sealed e s.encryption_key dto.provider_client_secret
      → Triple
          (λ w. Unit {0})
          (create_provider e s client dto)
          (λ p w. Kept e s.encryption_key dto.provider_client_secret p w.db)
          Any
  unfolding create_provider to_oauth_provider
  create_provider-Kept s client dto sealed = after_unknown _ _ λ x.
      Triple-bind (λ c w. Unit {0} × (decrypt e s.encryption_key c ≡ ok dto.provider_client_secret))
        _ _
        (Triple-map_error _ _
          (encrypt-decrypts e s.encryption_key dto.provider_client_secret sealed))
        λ c. Triple-assume _ λ plain.
          Triple-bind _ _ _ (Triple-map_error _ _ (create_oauth_provider-found _)) λ row.
            Triple-pure _ λ w (found, same). record {
              row = row;
              found = found;
              viewed = refl;
              decrypts = ap (decrypt e s.encryption_key) same ∙ plain;
            }

-- The secret with which a provider was created is the one that a later search reveals, as long as the
-- database is the same and the search does not fail.
pub create_provider_sound :
    (e : Environment) (s : Providers) (client : Uuid) (dto : CreateProviderDto)
    → Sealed e s.encryption_key dto.provider_client_secret
    → (w : World) (p : ProviderView) → (create_provider e s client dto w).0 ≡ ok p
    → (w' : World) → w'.db ≡ (create_provider e s client dto w).1.db
    → e.fails w'.tick ≡ false
    → (r : ProviderWithSecret) × (((get_provider_with_secret e s p.id w').0 ≡ ok r)
        × ((r.provider ≡ p) × (r.provider_client_secret ≡ dto.provider_client_secret)))
unfolding get_provider_with_secret find_provider get_oauth_provider reveal map_error statement
    lift_result pure ◌>>=◌
create_provider_sound e s client dto sealed w p h w' same served =
    let kept = Triple-at (create_provider-Kept e s client dto sealed) w p tt h in
    (
      record {
        provider = to_oauth_provider kept.row;
        provider_client_id = kept.row.provider_client_id;
        provider_client_secret = dto.provider_client_secret;
      },
      (rw (served, same, kept.found, kept.decrypts) refl, (kept.viewed, refl)),
    )
