-- ===== src/Auth/Rotation/Granted.antt =====
-- What a rotation that returns tokens has checked, and what it has stored.
use goauth_server.Prelude.{
  ℕ, ◌≡◌, refl, Bool, true, false, ◌==◌, ==_iff, str_eq, eq_iff, eq_refl, str_ptr, is_true, String,
  List, Option, some, select_first, exists, Bool-cases, inl, inr, arith, ◌||◌, sym,
}
use goauth_server.Model.{Uuid, Client, RefreshToken, Db}
use goauth_server.Environment.{Environment}
use goauth_server.Exec.{World, ok}
use goauth_server.Exec.Hoare.{
  Triple, Triple-bind, Triple-keeps, Triple-map_error, Triple-pure, Triple-raise, Triple-if,
  Triple-statement, Triple-at,
}
use goauth_server.Exec.Facts.{
  Any, Unchanged, Triple-assume, after_guard, last_guard, after_option, after_unknown, after_query,
  after_ask, after_row,
}
use goauth_server.Exec.Keeps.{Ages}
use goauth_server.Repository.Clients.{get_client}
use goauth_server.Repository.Users.{get_user_by_id}
use goauth_server.Repository.RefreshTokens.{
  CreateRefreshTokenParams, create_refresh_token, new_refresh_token, get_refresh_token_by_hash,
}
use goauth_server.Repository.Blind.{frame_rules}
use goauth_server.Repository.Frames.{On, On-Ages, refresh_rows}
use goauth_server.Auth.Service.{Service, TokenResponse, sha256_hex, after, time_now}
use goauth_server.Auth.Rotation.{
  check_client, authenticate_client, handle_replay, issue_access_token, issue_rotated,
  rotate_record, rotate_refresh_token,
}

module _ (e : Environment) where
  -- The client with the identifier is in the table, is active, and has the secret.
  pub record Authentic (d : Db) (cid : Uuid) (secret : String) : Type 0 where
    pub client : Client
    pub found : select_first (λ r. r.id == cid) d.clients ≡ some client
    pub active : client.is_active ≡ some true
    pub secret_hash : client.client_secret_hash ≡ sha256_hex e secret

  -- The token with the hash is in the table, is not revoked, was issued to the client, and had not
  -- expired when the clock was read.
  pub record Redeemable (d : Db) (hash : String) (cid : Uuid) (old : RefreshToken) : Type 0 where
    pub found : select_first (λ r. str_eq r.token_hash hash) d.refresh_tokens ≡ some old
    pub live : old.is_revoked ≡ false
    pub bound : old.client_id ≡ cid
    pub reading : ℕ
    pub unexpired : after (e.time reading) old.expires_at ≡ false

-- The token with the hash is in the table: a live successor of `old` for the same family, client, user
-- and scope.
pub record Succeeded (hash : String) (old : RefreshToken) (t : ℕ) (rows : List RefreshToken)
    : Type 0 where
  pub token : RefreshToken
  pub found : select_first (λ r. str_eq r.token_hash hash) rows ≡ some token
  pub live : token.is_revoked ≡ false
  pub family : token.token_family_id ≡ old.token_family_id
  pub previous : token.previous_token_id ≡ some old.id
  pub client : token.client_id ≡ old.client_id
  pub user : token.user_id ≡ old.user_id
  pub scope : token.scope ≡ old.scope

Succeeded-Ages : (hash : String) (old : RefreshToken) → Ages (On refresh_rows (Succeeded hash old))
Succeeded-Ages hash old = On-Ages _ _ λ t rows p. record {
  token = p.token;
  found = p.found;
  live = p.live;
  family = p.family;
  previous = p.previous;
  client = p.client;
  user = p.user;
  scope = p.scope;
}

is_true-some : (o : Option Bool) → is_true o ≡ true → o ≡ some true
is_true-some o h = ground arith

-- What the check of a client has found, where it passes.
pub check_client-Authentic :
    (e : Environment) (d : Db) (client : Client) (secret : String)
    → Triple
        (Unchanged d)
        (check_client e client secret)
        (λ a w.
          Unchanged d w
          × ((client.is_active ≡ some true) × (client.client_secret_hash ≡ sha256_hex e secret)))
        Any
unfolding check_client
check_client-Authentic e d client secret = after_guard _ _ _ λ active. last_guard _ _ λ w p same.
    (p, (is_true-some client.is_active active, (eq_iff client.client_secret_hash _).0 same))

module _ (e : Environment) (s : Service) (d : Db) where
  authenticate_client-Authentic :
      (client_id client_secret : String)
      → Triple
          (Unchanged d)
          (authenticate_client e s client_id client_secret)
          (λ cid w.
            Unchanged d w × ((e.parse_uuid client_id ≡ some cid) × Authentic e d cid client_secret))
          Any
  unfolding authenticate_client get_client
  authenticate_client-Authentic client_id client_secret = after_option _ _ _ λ cid parsed.
      after_query e d _ (λ d'. select_first (λ r. r.id == cid) d'.clients) _
        λ client found. Triple-bind _ _ _ (check_client-Authentic e d client client_secret) λ _.
          Triple-assume _ λ checked. Triple-pure _ λ w p. (
            p,
            (
              parsed,
              record {
                client = client;
                found = found;
                active = checked.0;
                secret_hash = checked.1;
              },
            ),
          )

  -- The new token is stored with what the request for it says.
  create_refresh_token-Succeeded :
      {P : World → Type 0} (old : RefreshToken) (arg : CreateRefreshTokenParams)
      → arg.token_family_id ≡ old.token_family_id
      → arg.previous_token_id ≡ some old.id
      → arg.client_id ≡ old.client_id
      → arg.user_id ≡ old.user_id
      → arg.scope ≡ old.scope
      → Triple P
          (create_refresh_token e arg)
          (λ a. On refresh_rows (Succeeded arg.token_hash old))
          Any
  unfolding create_refresh_token refresh_rows select_first new_refresh_token
  create_refresh_token-Succeeded old arg family previous client user scope =
      Triple-statement e _ (λ w p. tt)
        λ w p.
          elim (Bool-cases (
            exists (λ r. str_eq r.token_hash arg.token_hash || r.id == e.uuid w.tick)
              w.db.refresh_tokens)) [
                | inl taken ↦ rw taken tt
                | inr free ↦ rw free (record {
                  holds = record {
                    token = new_refresh_token (e.time w.tick) (e.uuid w.tick) arg;
                    found = rw eq_refl;
                    live = refl;
                    family = family;
                    previous = previous;
                    client = client;
                    user = user;
                    scope = scope;
                  };
                })
              ]

  issue_rotated-Succeeded :
      (old : RefreshToken) (cid user access_token_id : Uuid)
      → old.client_id ≡ cid
      → user ≡ old.user_id
      → Triple
          (λ w. Unit {0})
          (issue_rotated e s old cid user access_token_id)
          (λ value. On refresh_rows (Succeeded (sha256_hex e value) old))
          Any
  unfolding issue_rotated
  issue_rotated-Succeeded old cid user access_token_id bound same = after_unknown _ _ λ value.
      after_unknown _ _ λ now.
        Triple-bind _ _ _
          (Triple-map_error _ _
            (create_refresh_token-Succeeded old _ refl refl (sym bound) same refl))
          λ row.
            Triple-bind _ _ _ (Triple-keeps _ (search (frame_rules, Succeeded-Ages)) (λ w p. tt))
              λ _. Triple-pure value (λ w p. p)

  -- The access token is issued for the user of the old token.
  issue_access_token-user :
      (old : RefreshToken) (cid : Uuid)
      → Triple
          (λ w. Unit {0})
          (issue_access_token e s old cid)
          (λ r w. Unit {0} × (r.1 ≡ old.user_id))
          Any
  unfolding issue_access_token get_user_by_id
  issue_access_token-user old cid =
      after_row e _ (λ r. r.id == old.user_id) (λ d'. d'.users) _
        λ user it. after_unknown _ _ λ token. after_unknown _ _ λ now.
          after_unknown _ _ λ row. Triple-pure _ (λ w p. (tt, (==_iff user.id old.user_id).0 it))

  -- What a rotation shows that returned `resp`, when it began in the database `d`.
  pub record Rotated (raw_token client_id client_secret : String) (resp : TokenResponse) (w : World)
      : Type 0 where
    pub cid : Uuid
    pub parsed : e.parse_uuid client_id ≡ some cid
    pub authentic : Authentic e d cid client_secret
    pub old : RefreshToken
    pub redeemable : Redeemable e d (sha256_hex e raw_token) cid old
    pub stored : On refresh_rows (Succeeded (sha256_hex e resp.refresh_token) old) w
    pub scope : resp.scope ≡ str_ptr old.scope

  rotate_record-Rotated :
      (raw_token client_id client_secret : String) (cid : Uuid) (old : RefreshToken)
      → (e.parse_uuid client_id ≡ some cid) × Authentic e d cid client_secret
      → select_first (λ r. str_eq r.token_hash (sha256_hex e raw_token)) d.refresh_tokens ≡ some old
      → old.is_revoked ≡ false
      → Triple
          (Unchanged d)
          (rotate_record e s old cid)
          (Rotated raw_token client_id client_secret)
          Any
  unfolding rotate_record time_now
  rotate_record-Rotated raw_token client_id client_secret cid old known found live =
      after_ask e d _ _ λ k. after_guard _ _ _ λ unexpired. after_guard _ _ _ λ same.
        let bound = (==_iff old.client_id cid).0 same in
        after_unknown _ _ λ _.
          Triple-bind _ _ _ (issue_access_token-user old cid) λ (token, user, access_token_id).
            Triple-assume _ λ its_user.
              Triple-bind _ _ _
                (issue_rotated-Succeeded old cid user access_token_id bound its_user)
                λ value. Triple-pure _ λ w p. record {
                  cid = cid;
                  parsed = known.0;
                  authentic = known.1;
                  old = old;
                  redeemable = record {
                    found = found;
                    live = live;
                    bound = bound;
                    reading = k;
                    unexpired = ground arith;
                  };
                  stored = p;
                  scope = refl;
                }

  handle_replay-none :
      (old : RefreshToken) (Q : TokenResponse → World → Type 0)
      → Triple (Unchanged d) (handle_replay e s old) Q Any
  unfolding handle_replay
  handle_replay-none old Q =
      after_unknown _ _
        λ _. after_unknown _ _ λ _. after_unknown _ _ λ _. Triple-raise _ (λ w p. tt)

  rotate-Rotated :
      (raw_token client_id client_secret : String)
      → Triple
          (Unchanged d)
          (rotate_refresh_token e s raw_token client_id client_secret)
          (Rotated raw_token client_id client_secret)
          Any
  unfolding rotate_refresh_token get_refresh_token_by_hash
  rotate-Rotated raw_token client_id client_secret =
      Triple-bind _ _ _ (authenticate_client-Authentic client_id client_secret) λ cid.
        Triple-assume _ λ known.
          after_query e d _
            (λ d'.
              select_first (λ r. str_eq r.token_hash (sha256_hex e raw_token)) d'.refresh_tokens)
            _
            λ old found.
              Triple-if old.is_revoked _ _ (λ _. handle_replay-none old _)
                (rotate_record-Rotated raw_token client_id client_secret cid old known found)

-- A rotation returns tokens only for an active client with the right secret, and for a refresh token
-- that was in the table at the start, not revoked, issued to this client, and not expired at a
-- reading of the clock. The refresh token that it returns is then in the table: live, the successor
-- of the old one, and of the same family, client, user and scope; the response has that scope.
pub rotate_sound :
    (e : Environment) (s : Service) (raw_token client_id client_secret : String) (w : World)
    (resp : TokenResponse)
    → (rotate_refresh_token e s raw_token client_id client_secret w).0 ≡ ok resp
    → Rotated e s w.db raw_token client_id client_secret resp
        (rotate_refresh_token e s raw_token client_id client_secret w).1
rotate_sound e s raw_token client_id client_secret w resp h =
    Triple-at (rotate-Rotated e s w.db raw_token client_id client_secret) w resp
      (record { same = refl }) h
