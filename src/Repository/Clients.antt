-- ===== src/Repository/Clients.antt =====
-- internal/repository/clients.sql.go. The trigger set_updated_at writes `updated_at` at each UPDATE.
use goauth_server.Prelude.{
  ℕ, String, Bool, false, Option, some, List, ◌∷◌, ◌==◌, select_first, select_all, update_where,
  exists, if◌then◌else◌,
}
use goauth_server.Model.{Uuid, Time, Client, Db}
use goauth_server.Environment.{Environment}
use goauth_server.Exec.{ok, err, unique_violation, M, statement, one_row}
use goauth_server.Repository.Pages.{newest_first, page, count, is_set_to}

pub record CreateClientParams : Type 0 where
  pub name : String
  pub description : Option String
  pub client_secret_hash : String
  pub redirect_uris : List String
  pub grant_types : List String
  pub is_active : Option Bool
  pub created_by : Uuid
  pub is_confidential : Bool
  pub allow_refresh_tokens : Bool

unfoldable pub new_client : Time → Uuid → CreateClientParams → Client
new_client now id arg = record {
  id = id;
  name = arg.name;
  description = arg.description;
  client_secret_hash = arg.client_secret_hash;
  redirect_uris = arg.redirect_uris;
  grant_types = arg.grant_types;
  is_active = arg.is_active;
  created_by = arg.created_by;
  created_at = now;
  updated_at = now;
  is_confidential = arg.is_confidential;
  allow_refresh_tokens = arg.allow_refresh_tokens;
}

pub record UpdateClientParams : Type 0 where
  pub id : Uuid
  pub name : String
  pub description : Option String
  pub redirect_uris : List String
  pub grant_types : List String
  pub is_confidential : Bool
  pub allow_refresh_tokens : Bool

unfoldable pub set_client : Time → UpdateClientParams → Client → Client
set_client now arg r = record r {
  name = arg.name;
  description = arg.description;
  redirect_uris = arg.redirect_uris;
  grant_types = arg.grant_types;
  is_confidential = arg.is_confidential;
  allow_refresh_tokens = arg.allow_refresh_tokens;
  updated_at = now;
}

unfoldable pub set_secret : Time → String → Client → Client
set_secret now hash r = record r { client_secret_hash = hash; updated_at = now }

unfoldable pub set_inactive : Time → Client → Client
set_inactive now r = record r { is_active = some false; updated_at = now }

abbrev pub set_clients : Db → List Client → Db
set_clients d rows = record d { clients = rows }

module _ (e : Environment) where
  unfoldable pub get_client : Uuid → M Client
  get_client client =
      statement e λ now id d. (one_row (select_first (λ r. r.id == client) d.clients), d)

  unfoldable pub create_client : CreateClientParams → M Client
  create_client arg = statement e λ now id d.
      if exists (λ r. r.id == id) d.clients
      then (err unique_violation, d)
      else (ok (new_client now id arg), set_clients d (new_client now id arg ∷ d.clients))

  -- $1 is a Go bool, which is never NULL.
  unfoldable pub list_clients : Bool → ℕ → ℕ → M (List Client)
  list_clients active limit offset = statement e λ now id d. (
    page limit offset (
        newest_first (λ r. r.created_at)
          (select_all (λ r. is_set_to active r.is_active) d.clients)),
    d,
  )

  unfoldable pub count_clients : Bool → M ℕ
  count_clients active =
      statement e
        λ now id d. (ok (count (select_all (λ r. is_set_to active r.is_active) d.clients)), d)

  unfoldable pub delete_client : Uuid → M (Unit {0})
  delete_client client = statement e λ now id d.
      (ok tt, set_clients d (update_where (λ r. r.id == client) (set_inactive now) d.clients))

  unfoldable pub regenerate_client_secret : Uuid → String → M Client
  regenerate_client_secret client hash = statement e λ now id d.
      let rows = update_where (λ r. r.id == client) (set_secret now hash) d.clients in
      (one_row (select_first (λ r. r.id == client) rows), set_clients d rows)

  unfoldable pub update_client : UpdateClientParams → M Client
  update_client arg = statement e λ now id d.
      let rows = update_where (λ r. r.id == arg.id) (set_client now arg) d.clients in
      (one_row (select_first (λ r. r.id == arg.id) rows), set_clients d rows)
