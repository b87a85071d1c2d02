-- ===== src/ClientService/Secret.antt =====
-- The secret that the creation of a client returns, and the one that its regeneration returns.
use goauth_server.Prelude.{
  ℕ, ◌≡◌, refl, ap, ◌∙◌, String, Bool, true, ◌==◌, ==_refl, some, List, str_eq, eq_refl,
  select_first, exists, update_where, Option-cases, Bool-cases, inl, inr, is_true,
}
use goauth_server.Model.{Uuid, Client, Db}
use goauth_server.Environment.{Environment}
use goauth_server.Exec.{ok, World, ◌>>=◌, guard}
use goauth_server.Exec.Hoare.{
  Triple, Triple-bind, Triple-pure, Triple-map_error, Triple-statement, Triple-at,
}
use goauth_server.Exec.Facts.{Any, after_unknown}
use goauth_server.Repository.Clients.{
  CreateClientParams, new_client, create_client, set_secret, regenerate_client_secret,
}
use goauth_server.Repository.Updated.{found_updated, missing_updated, found_key}
use goauth_server.Exec.Keeps.{Ages}
use goauth_server.Repository.Frames.{On, On-Ages, client_rows}
use goauth_server.Repository.Blind.{frame_rules}
use goauth_server.Repository.Logged.{audit_step}
use goauth_server.Auth.Service.{sha256_hex}
use goauth_server.Auth.Rotation.{check_client}
use goauth_server.ClientService.{ClientWithSecret, create_client_app, regenerate_secret, to_client}
use goauth_server.ClientService.Validation.{CreateClientDto}

-- The row that the client's identifier finds.
pub record Stored (e : Environment) (d : Db) (r : ClientWithSecret) : Type 0 where
  pub row : Client
  pub found : select_first (λ c. c.id == r.client.id) d.clients ≡ some row
  pub hashed : row.client_secret_hash ≡ sha256_hex e r.plain_secret
  pub viewed : to_client row ≡ r.client

-- The row is the one that its identifier finds, and has the hash.
record Secured (row : Client) (hash : String) (t : ℕ) (rows : List Client) : Type 0 where
  found : select_first (λ c. c.id == row.id) rows ≡ some row
  hashed : row.client_secret_hash ≡ hash

Secured-Ages : (row : Client) (hash : String) → Ages (On client_rows (Secured row hash))
Secured-Ages row hash = On-Ages _ _ λ t rows p. record { found = p.found; hashed = p.hashed }

module _ (e : Environment) where
  create_client-found :
      (arg : CreateClientParams)
      → Triple
          (λ w. Unit {0})
          (create_client e arg)
          (λ row w.
            (select_first (λ c. c.id == row.id) w.db.clients ≡ some row)
            × ((row.client_secret_hash ≡ arg.client_secret_hash) × (row.is_active ≡ arg.is_active)))
          Any
  unfolding create_client select_first new_client
  create_client-found arg =
      Triple-statement e _ (λ w p. tt)
        λ w p. elim (Bool-cases (exists (λ r. r.id == e.uuid w.tick) w.db.clients)) [
          | inl taken ↦ rw taken tt
          | inr free ↦ rw (free, ==_refl (e.uuid w.tick)) (refl, (refl, refl))
        ]

  create_client_app-Stored :
      (env : String) (dto : CreateClientDto) (admin : Uuid)
      → Triple
          (λ w. Unit {0})
          (create_client_app e env dto admin)
          (λ r w. Stored e w.db r × (r.client.is_active ≡ dto.is_active))
          Any
  unfolding create_client_app to_client
  create_client_app-Stored env dto admin = after_unknown _ _ λ x. after_unknown _ _ λ secret.
      Triple-bind _ _ _ (Triple-map_error _ _ (create_client-found _)) λ row.
        Triple-pure _ λ w (found, (hash, active)).
          (record { row = row; found = found; hashed = hash; viewed = refl }, ap is_true active)

  -- The plain secret of an active client passes the check of clients.
  Stored-check :
      (d : Db) (r : ClientWithSecret) (stored : Stored e d r) (w : World)
      → r.client.is_active ≡ true
      → (check_client e stored.row r.plain_secret w).0 ≡ ok tt
  unfolding check_client guard ◌>>=◌ to_client
  Stored-check d r stored w active =
      rw
        (
          ap (λ c. c.is_active) stored.viewed ∙ active,
          ap (λ h. str_eq h (sha256_hex e r.plain_secret)) stored.hashed
              ∙ eq_refl (sha256_hex e r.plain_secret),
        )
        refl

  regenerate_client_secret-found :
      (id : Uuid) (hash : String)
      → Triple
          (λ w. Unit {0})
          (regenerate_client_secret e id hash)
          (λ row. On client_rows (Secured row hash))
          Any
  unfolding regenerate_client_secret set_secret client_rows
  regenerate_client_secret-found id hash =
      Triple-statement e _ (λ w p. tt)
        λ w p. elim (Option-cases (select_first (λ r. r.id == id) w.db.clients)) [
          | inl nothing ↦
              rw
                (missing_updated (λ r. r.id) id (set_secret (e.time w.tick) hash) w.db.clients
                  (λ r. refl) nothing)
                tt
          | inr (row, it) ↦
              let new =
                found_updated (λ r. r.id) id (set_secret (e.time w.tick) hash) w.db.clients
                  (λ r. refl) row it in
              rw new (record {
                holds = record {
                  hashed = refl;
                  found =
                      ap
                        (λ i.
                          select_first (λ c. c.id == i)
                            (update_where (λ r. r.id == id) (set_secret (e.time w.tick) hash)
                              w.db.clients))
                        (found_key (λ r. r.id) id w.db.clients row it)
                      ∙ new;
                };
              })
        ]

  regenerate_secret-Stored :
      (audited : Bool) (id : Uuid)
      → Triple (λ w. Unit {0}) (regenerate_secret e audited id) (λ r w. Stored e w.db r) Any
  unfolding regenerate_secret client_rows to_client
  regenerate_secret-Stored audited id = after_unknown _ _ λ existing. after_unknown _ _ λ secret.
      Triple-bind _ _ _
        (Triple-map_error _ _ (regenerate_client_secret-found existing.id (sha256_hex e secret)))
        λ row. Triple-bind _ _ _ (audit_step e audited _ (search (frame_rules, Secured-Ages))) λ x.
          Triple-pure _ λ w p. record {
            row = row;
            found = p.holds.found;
            hashed = p.holds.hashed;
            viewed = refl;
          }

-- What the creation of a client returns: the row that its identifier finds afterwards has the hash of
-- the secret that is returned, and where the client is created as active, the check of clients
-- accepts that secret.
pub create_client_sound :
    (e : Environment) (env : String) (dto : CreateClientDto) (admin : Uuid) (w : World)
    (r : ClientWithSecret)
    → (create_client_app e env dto admin w).0 ≡ ok r
    → (stored : Stored e (create_client_app e env dto admin w).1.db r) × ((w' : World)
        → dto.is_active ≡ true
        → (check_client e stored.row r.plain_secret w').0 ≡ ok tt)
create_client_sound e env dto admin w r h =
    let (stored, same) = Triple-at (create_client_app-Stored e env dto admin) w r tt h in
    (stored, λ w' active. Stored-check e _ r stored w' (same ∙ active))

-- What the regeneration of a secret returns: the row that the client's identifier finds afterwards
-- has the hash of the secret that is returned, and where the client is active, the check of clients
-- accepts that secret.
pub regenerate_secret_sound :
    (e : Environment) (audited : Bool) (id : Uuid) (w : World) (r : ClientWithSecret)
    → (regenerate_secret e audited id w).0 ≡ ok r
    → (stored : Stored e (regenerate_secret e audited id w).1.db r) × ((w' : World)
        → r.client.is_active ≡ true
        → (check_client e stored.row r.plain_secret w').0 ≡ ok tt)
regenerate_secret_sound e audited id w r h =
    let stored = Triple-at (regenerate_secret-Stored e audited id) w r tt h in
    (stored, λ w' active. Stored-check e _ r stored w' active)
