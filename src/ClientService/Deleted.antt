-- ===== src/ClientService/Deleted.antt =====
-- A deleted client gets no tokens, whatever is called afterwards.
use mathlib.Core.Option.{some-injective}
use goauth_server.Prelude.{
  ℕ, ◌≡◌, ◌≢◌, refl, sym, ap, ◌∙◌, String, false, ◌==◌, some, List, select_first, Option-cases, inl,
  inr, is_true,
}
use goauth_server.Model.{Uuid, Client}
use goauth_server.Environment.{Environment}
use goauth_server.Exec.{
  Error, ok, World, ◌>>=◌, ◌>>◌, pure, map_error, lift_option, not_found_as, client_not_found,
}
use goauth_server.Exec.Hoare.{Triple, Triple-bind, Triple-map_error, Triple-statement, Triple-at}
use goauth_server.Exec.Keeps.{Ages}
use goauth_server.Exec.Facts.{Any, Triple-never, after_unknown, last_guard}
use goauth_server.Repository.Clients.{get_client, delete_client, set_inactive}
use goauth_server.Repository.Frames.{On, On-Ages, client_rows}
use goauth_server.Repository.Blind.{frame_rules}
use goauth_server.Repository.Updated.{found_updated, missing_updated}
use goauth_server.Password.{Unicode}
use goauth_server.Auth.Service.{Service, TokenResponse}
use goauth_server.Auth.Rotation.{authenticate_client, check_client, rotate_refresh_token}
use goauth_server.Auth.Authorization.{exchange_code_for_token}
use goauth_server.Auth.Calls.{Call, serve, serve_induction}
use goauth_server.Auth.Calls.Stable.{Stable, handle-Stable}
use goauth_server.ClientService.{delete_client_app}

-- The identifier finds no client that is active.
record Inactive (id : Uuid) (t : ℕ) (rows : List Client) : Type 0 where
  inactive :
      (row : Client)
      → select_first (λ c. c.id == id) rows ≡ some row
      → is_true row.is_active ≡ false

Inactive-Ages : (id : Uuid) → Ages (On client_rows (Inactive id))
Inactive-Ages id = On-Ages _ _ λ t rows p. record { inactive = p.inactive }

ruleset inactive_rules = (frame_rules, Inactive-Ages)

-- No call of the auth service writes the clients.
Inactive-Stable : (e : Environment) (id : Uuid) → Stable e client_rows (Inactive id)
Inactive-Stable e id = record {
  ages = Inactive-Ages id;
  access_created = λ x. search inactive_rules;
  access_revoked = λ x. search inactive_rules;
  user_access_revoked = λ x. search inactive_rules;
  code_used = λ x. search inactive_rules;
  refresh_created = λ x. search inactive_rules;
  refresh_used = λ x. search inactive_rules;
  refresh_revoked = λ x y. search inactive_rules;
  family_revoked = λ x y. search inactive_rules;
  user_refresh_revoked = λ x y. search inactive_rules;
  failure_counted = λ x. search inactive_rules;
  locked = λ x y. search inactive_rules;
  failures_reset = λ x. search inactive_rules;
  login_recorded = λ x y. search inactive_rules;
  flag_set = λ x y. search inactive_rules;
  hash_set = λ x y. search inactive_rules;
  logged = λ x y. search inactive_rules;
}

module _ (e : Environment) (id : Uuid) where
  abbrev Gone : World → Type 0
  Gone = On client_rows (Inactive id)

  delete_client-Gone : Triple (λ w. Unit {0}) (delete_client e id) (λ x. Gone) Any
  unfolding delete_client client_rows set_inactive
  delete_client-Gone =
      Triple-statement e _ (λ w p. tt)
        λ w p. record {
          holds = record {
            inactive = λ row h. elim (Option-cases (select_first (λ r. r.id == id) w.db.clients)) [
              | inl nothing ↦
                  let missing =
                    missing_updated (λ r. r.id) id (set_inactive (e.time w.tick)) w.db.clients
                      (λ r. refl) nothing in
                  cc
              | inr (old, it) ↦
                  let new =
                    found_updated (λ r. r.id) id (set_inactive (e.time w.tick)) w.db.clients
                      (λ r. refl) old it in
                  ap (λ r. is_true r.is_active) (some-injective _ _ (sym h ∙ new))
            ];
          };
        }

  delete_client_app-Gone : Triple (λ w. Unit {0}) (delete_client_app e id) (λ x. Gone) Any
  unfolding delete_client_app
  delete_client_app-Gone = after_unknown _ _ λ x. Triple-map_error _ _ delete_client-Gone

  get_client-Gone :
      (g : Error → Error)
      → Triple Gone (map_error g (get_client e id)) (λ c w. is_true c.is_active ≡ false) Any
  unfolding get_client client_rows
  get_client-Gone g = Triple-map_error g _ (
      Triple-statement e _ (λ w p. tt)
        λ w p. elim (Option-cases (select_first (λ r. r.id == id) w.db.clients)) [
          | inl nothing ↦ rw nothing tt
          | inr (c, it) ↦ rw it (p.holds.inactive c it)
        ])

  check_client-Gone :
      (c : Client) (secret : String)
      → Triple (λ w. is_true c.is_active ≡ false) (check_client e c secret) (λ x w. ⊥) Any
  unfolding check_client
  check_client-Gone c secret =
      Triple-bind (λ x w. ⊥) _ _ (last_guard (is_true c.is_active) _ λ w inactive active. cc)
        λ x. Triple-never _

  exchange-Gone :
      (s : Service) (code client_secret redirect_uri : String)
      → Triple Gone (exchange_code_for_token e s code id client_secret redirect_uri) (λ r w. ⊥) Any
  unfolding exchange_code_for_token
  exchange-Gone s code client_secret redirect_uri =
      Triple-bind _ _ _ (get_client-Gone _)
        λ c. Triple-bind _ _ _ (check_client-Gone c client_secret) λ x. Triple-never _

  authenticate_client-Gone :
      (s : Service) (raw client_secret : String)
      → e.parse_uuid raw ≡ some id
      → Triple Gone (authenticate_client e s raw client_secret) (λ r w. ⊥) Any
  unfolding authenticate_client lift_option ◌>>=◌
  authenticate_client-Gone s raw client_secret h = record { run = rw h (found.run) }
    where
      found :
          Triple Gone
            (do
              client ← map_error (not_found_as client_not_found "getting client") (get_client e id)
              check_client e client client_secret
              pure id)
            (λ r w. ⊥)
            Any
      found =
          Triple-bind _ _ _ (get_client-Gone _)
            λ c. Triple-bind _ _ _ (check_client-Gone c client_secret) λ x. Triple-never _

  rotate-Gone :
      (s : Service) (raw_token raw client_secret : String)
      → e.parse_uuid raw ≡ some id
      → Triple Gone (rotate_refresh_token e s raw_token raw client_secret) (λ r w. ⊥) Any
  unfolding rotate_refresh_token
  rotate-Gone s raw_token raw client_secret h =
      Triple-bind _ _ _ (authenticate_client-Gone s raw client_secret h) λ x. Triple-never _

-- After the deletion of a client that returned without an error, and whatever calls of the auth
-- service follow, no code is exchanged and no refresh token is rotated for the client.
pub deleted_client_refused :
    (e : Environment) (s : Service) (u : Unicode) (id : Uuid) (w : World)
    → (delete_client_app e id w).0 ≡ ok tt
    → (calls : List Call)
    → ((code client_secret redirect_uri : String) (r : TokenResponse)
        → (exchange_code_for_token e s code id client_secret redirect_uri
            (serve e s u calls (delete_client_app e id w).1)).0
          ≢ ok r)
      × ((raw_token raw_id client_secret : String) (r : TokenResponse)
          → e.parse_uuid raw_id ≡ some id
          → (rotate_refresh_token e s raw_token raw_id client_secret
              (serve e s u calls (delete_client_app e id w).1)).0
            ≢ ok r)
deleted_client_refused e s u id w h calls = (
  λ code client_secret redirect_uri r granted.
      Triple-at (exchange-Gone e id s code client_secret redirect_uri) _ r gone granted,
  λ raw_token raw_id client_secret r named granted.
      Triple-at (rotate-Gone e id s raw_token raw_id client_secret named) _ r gone granted,
)
  where
    gone : Gone e id (serve e s u calls (delete_client_app e id w).1)
    gone =
        serve_induction e s u (handle-Stable e s (Inactive-Stable e id) u) calls _
          (Triple-at (delete_client_app-Gone e id) w tt tt h)
