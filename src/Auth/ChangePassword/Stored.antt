-- ===== src/Auth/ChangePassword/Stored.antt =====
-- What a change of the password that succeeds has checked, and what it has stored.
use goauth_server.Prelude.{
  ℕ, ◌≡◌, refl, String, Bool, true, false, ◌==◌, ◌*◌, some, List, [], ◌∷◌, split, cut, parse_uint32,
  codes, str_append, select_first, exists, arith, select_first-update_where, Option-cases, inl, inr,
}
use goauth_server.Model.{Uuid, User, Db}
use goauth_server.Environment.{Environment}
use goauth_server.Exec.{World, ok}
use goauth_server.Exec.Hoare.{
  Triple, Triple-bind, Triple-keeps, Triple-map_error, Triple-pure, Triple-statement, Triple-at,
}
use goauth_server.Exec.Keeps.{Ages, keeps_rules}
use goauth_server.Exec.Facts.{
  Any, Unchanged, Triple-assume, Triple-weaken_post, after_guard, after_option, after_result,
  after_unknown, after_query,
}
use goauth_server.Repository.Users.{
  get_user_by_id, update_password_hash, set_force_password_change, update_user_row,
  set_password_hash, set_force_change,
}
use goauth_server.Repository.Updated.{find_updated}
use goauth_server.Repository.Blind.{frame_rules}
use goauth_server.Repository.Frames.{On, On-Ages, user_rows}
use goauth_server.Password.{Unicode, validate}
use goauth_server.Auth.Service.{Service}
use goauth_server.Auth.Login.{set_param, hash_fields, parse_params, no_params, list_length}
use goauth_server.Auth.Login.Verified.{Matches}
use goauth_server.Auth.ChangePassword.{
  ChangePasswordResult, phc_string, hash_argon2id, store_password, change_password,
}

-- the dollar sign does not occur in the text
abbrev pub undivided : String → Bool
undivided s = exists (λ c. c == b'$') (codes s)

split-undivided : (s : String) → undivided s ≡ false → split b'$' s ≡ s ∷ []
unfolding split exists codes
split-undivided String.[] h = refl
split-undivided (String.◌∷◌ c s) h = ground (arith, h, split-undivided s)

split-append :
    (s t : String)
    → undivided s ≡ false
    → split b'$' (str_append s (str_append "$" t)) ≡ s ∷ split b'$' t
unfolding split exists codes str_append
split-append String.[] t h = refl
split-append (String.◌∷◌ c s) t h = ground (arith, h, split-append s t)

-- The fields that the login takes from a text that the change of password makes.
hash_fields-phc_string :
    (e : Environment) (salt64 hash64 : String)
    → undivided salt64 ≡ false
    → undivided hash64 ≡ false
    → hash_fields (split b'$' (phc_string e salt64 hash64))
      ≡ some ("m=65536,t=3,p=4", salt64, hash64)
unfolding hash_fields phc_string split str_append
hash_fields-phc_string e salt64 hash64 hs hh =
    rw (split-append salt64 hash64 hs, split-undivided hash64 hh) refl

parse_params_made :
    parse_params (split b',' "m=65536,t=3,p=4") no_params
    ≡ ok (record { memory = 65536; iterations = 3; parallelism = 4 })
unfolding parse_params split set_param cut parse_uint32
parse_params_made = refl

module _ (e : Environment) (alphabet : (b : List ℕ) → undivided (e.base64_encode b) ≡ false)
    (decodes : (b : List ℕ) → e.base64_decode (e.base64_encode b) ≡ some b)
    (key_length : (p : String) (salt key : List ℕ)
      → e.id_key p salt 3 (64 * 1024) 4 32 ≡ some key
      → list_length key ≡ 32) where
  made-Matches :
      (password : String) (salt key : List ℕ)
      → e.id_key password salt 3 (64 * 1024) 4 32 ≡ some key
      → Matches e password (phc_string e (e.base64_encode salt) (e.base64_encode key))
  made-Matches password salt key derives = record {
    params = "m=65536,t=3,p=4";
    salt64 = e.base64_encode salt;
    hash64 = e.base64_encode key;
    fields = hash_fields-phc_string e _ _ (alphabet salt) (alphabet key);
    parsed = record { memory = 65536; iterations = 3; parallelism = 4 };
    parses = parse_params_made;
    salt = salt;
    decoded_salt = decodes salt;
    stored = key;
    decoded_hash = decodes key;
    derived = rw (key_length password salt key derives) derives;
  }

  hash_argon2id-Matches :
      {P : World → Type 0} (password : String)
      → Triple P (hash_argon2id e password) (λ hash w. Unit {0} × Matches e password hash) Any
  unfolding hash_argon2id
  hash_argon2id-Matches password = after_unknown _ _ λ salt.
      after_option _ _ _
        λ key derives. Triple-pure _ λ w p. (tt, made-Matches password salt key derives)

-- The row of the user has the hash.
record Hashed (i : Uuid) (hash : String) (t : ℕ) (rows : List User) : Type 0 where
  row : User
  found : select_first (λ r. r.id == i) rows ≡ some row
  hashed : row.password_hash ≡ some hash

-- The row of the user has the hash, and need not be changed again.
pub record Settled (i : Uuid) (hash : String) (t : ℕ) (rows : List User) : Type 0 where
  pub row : User
  pub found : select_first (λ r. r.id == i) rows ≡ some row
  pub hashed : row.password_hash ≡ some hash
  pub settled : row.force_password_change ≡ false

Settled-Ages : (i : Uuid) (hash : String) → Ages (On user_rows (Settled i hash))
Settled-Ages i hash =
    On-Ages _ _
      λ t rows p. record { row = p.row; found = p.found; hashed = p.hashed; settled = p.settled }

module _ (e : Environment) (i : Uuid) (hash : String) where
  update_password_hash-Hashed :
      {P : World → Type 0}
      → Triple P
          (update_password_hash e i (some hash))
          (λ a. On user_rows (Hashed i hash))
          (λ r w. Unit {0})
  unfolding update_password_hash update_user_row user_rows set_password_hash
  update_password_hash-Hashed =
      Triple-statement e _ (λ w p. tt)
        λ w p. elim (Option-cases (select_first (λ r. r.id == i) w.db.users)) [
          | inl nothing ↦
              rw
                (
                  select_first-update_where (λ r. r.id == i) (λ r. r.id == i)
                      (set_password_hash (e.time w.tick) (some hash)) w.db.users (λ r. refl),
                  nothing,
                )
                tt
          | inr (row, it) ↦
              let found =
                find_updated i (set_password_hash (e.time w.tick) (some hash)) w.db.users row
                  (λ r. refl) it in
              rw found (record {
                holds = record {
                  row = set_password_hash (e.time w.tick) (some hash) row;
                  found = found;
                  hashed = refl;
                };
              })
        ]

  set_force_password_change-Settled :
      Triple
        (On user_rows (Hashed i hash))
        (set_force_password_change e i false)
        (λ a. On user_rows (Settled i hash))
        (λ r w. Unit {0})
  unfolding set_force_password_change update_user_row user_rows set_force_change
  set_force_password_change-Settled =
      Triple-statement e _ (λ w p. tt)
        λ w p.
          let found =
            find_updated i (set_force_change (e.time w.tick) false) w.db.users p.holds.row
              (λ r. refl) p.holds.found in
          rw found (record {
            holds = record {
              row = set_force_change (e.time w.tick) false p.holds.row;
              found = found;
              hashed = p.holds.hashed;
              settled = refl;
            };
          })

module _ (e : Environment) (s : Service) (u : Unicode) where
  -- What a change of the password shows that succeeded, when it began in the database `d`.
  pub record Changed (d : Db) (user_id : Uuid) (new_password : String) (r : ChangePasswordResult)
      (w : World) : Type 0 where
    pub user : User
    pub found : select_first (λ x. x.id == user_id) d.users ≡ some user
    pub due : user.force_password_change ≡ true
    pub valid : validate u new_password user.email ≡ ok tt
    pub hash : String
    pub matches : Matches e new_password hash
    pub settled : On user_rows (Settled user_id hash) w
    pub email : r.email ≡ user.email

  module _ (alphabet : (b : List ℕ) → undivided (e.base64_encode b) ≡ false)
      (decodes : (b : List ℕ) → e.base64_decode (e.base64_encode b) ≡ some b)
      (key_length : (p : String) (salt key : List ℕ)
        → e.id_key p salt 3 (64 * 1024) 4 32 ≡ some key
        → list_length key ≡ 32) where
    store_password-Settled :
        (i : Uuid) (new_password : String)
        → Triple
            (λ w. Unit {0})
            (store_password e s u i new_password)
            (λ a w.
              (hash : String) × (Matches e new_password hash × On user_rows (Settled i hash) w))
            Any
    unfolding store_password
    store_password-Settled i new_password =
        Triple-bind _ _ _
          (Triple-map_error _ _ (hash_argon2id-Matches e alphabet decodes key_length new_password))
          λ hash. Triple-assume _ λ matches.
            Triple-bind _ _ _ (Triple-map_error _ _ (update_password_hash-Hashed e i hash)) λ _.
              Triple-bind _ _ _ (Triple-map_error _ _ (set_force_password_change-Settled e i hash))
                λ _.
                  Triple-weaken_post _ (λ a w p. (hash, (matches, p)))
                    (Triple-keeps _ (search (keeps_rules, frame_rules, Settled-Ages) depth 9)
                      (λ w p. tt))

    change_password-Changed :
        (d : Db) (user_id : Uuid) (new_password : String)
        → Triple
            (Unchanged d)
            (change_password e s u user_id new_password)
            (Changed d user_id new_password)
            Any
    unfolding change_password get_user_by_id
    change_password-Changed d user_id new_password =
        after_query e d _ (λ d'. select_first (λ x. x.id == user_id) d'.users) _
          λ user found. after_guard _ _ _ λ due. after_result _ _ λ ok_ valid.
            Triple-bind _ _ _
              (record { run = λ w p. (store_password-Settled user_id new_password).run w tt })
              λ _. Triple-pure _ λ w (hash, (matches, settled)). record {
                user = user;
                found = found;
                due = due;
                valid = valid;
                hash = hash;
                matches = matches;
                settled = settled;
                email = refl;
              }

-- Let base64 texts contain no dollar sign and decode to what was encoded, and let Argon2id derive keys of the
-- length asked for. A change of the password that succeeds found the user, whose flag for a
-- change was set, and a new password that the policy accepts. Then the row of the user has the flag cleared
-- and an Argon2id hash from which the login derives the key that is stored in it for the new password.
pub change_password_sound :
    (e : Environment) (s : Service) (u : Unicode)
    (alphabet : (b : List ℕ) → undivided (e.base64_encode b) ≡ false)
    (decodes : (b : List ℕ) → e.base64_decode (e.base64_encode b) ≡ some b)
    (key_length : (p : String) (salt key : List ℕ)
      → e.id_key p salt 3 (64 * 1024) 4 32 ≡ some key
      → list_length key ≡ 32)
    (user_id : Uuid) (new_password : String) (w : World) (r : ChangePasswordResult)
    → (change_password e s u user_id new_password w).0 ≡ ok r
    → Changed e s u w.db user_id new_password r (change_password e s u user_id new_password w).1
change_password_sound e s u alphabet decodes key_length user_id new_password w r h =
    Triple-at (change_password-Changed e s u alphabet decodes key_length w.db user_id new_password)
      w r (record { same = refl }) h
