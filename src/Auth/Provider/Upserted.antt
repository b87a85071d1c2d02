-- ===== src/Auth/Provider/Upserted.antt =====
-- The user that the callback of a provider signs in.
use goauth_server.Prelude.{
  ℕ, ◌≡◌, refl, String, ◌||◌, ◌&&◌, ◌==◌, some, str_eq, str_ptr, select_first, exists, update_where,
  Option-cases, Bool-cases, inl, inr,
}
use goauth_server.Model.{Db, Uuid, User}
use goauth_server.Environment.{Environment}
use goauth_server.Exec.{ok, ◌>>=◌, raise, attempt, statement}
use goauth_server.Exec.Hoare.{Triple, Triple-map_error, Triple-statement}
use goauth_server.Exec.Facts.{Any, Unchanged, Triple-weaken_post, after_unknown}
use goauth_server.Repository.Users.{
  create_user, new_user, CreateUserParams, get_user_by_provider_id, update_last_login,
  set_last_login, update_user_row, same_text,
}
use goauth_server.Repository.Updated.{found_key}
use goauth_server.Auth.Provider.{ProviderUserInfo, create_provider_user, upsert_found, upsert_user}

-- The user is the one that is recorded for the provider's subject, or is made for it.
pub data Identified (d : Db) (provider : String) (info : ProviderUserInfo) (user : User)
    : Type 0 where
  known :
      (row : User)
      → select_first
          (λ r.
            same_text r.provider (str_ptr provider) && same_text r.provider_id (str_ptr info.sub))
          d.users
        ≡ some row
      → user.id ≡ row.id
      → Identified d provider info user
  made :
      user.provider ≡ str_ptr provider
      → user.provider_id ≡ str_ptr info.sub
      → user.email ≡ info.email
      → Identified d provider info user

module _ (e : Environment) (d : Db) where
  create_user-made :
      (arg : CreateUserParams)
      → Triple
          (λ w. Unit {0})
          (create_user e arg)
          (λ u w.
            (u.provider ≡ arg.provider)
            × ((u.provider_id ≡ arg.provider_id) × (u.email ≡ arg.email)))
          Any
  unfolding create_user new_user
  create_user-made arg =
      Triple-statement e _ (λ w p. tt)
        λ w p.
          elim (Bool-cases (
            exists
              (λ r.
                str_eq r.email arg.email
                || r.id == e.uuid w.tick
                || (same_text r.provider arg.provider && same_text r.provider_id arg.provider_id))
              w.db.users)) [ inl taken ↦ rw taken tt | inr free ↦ rw free (refl, (refl, refl)) ]

  update_last_login-same :
      (id : Uuid) (now : ℕ)
      → Triple (λ w. Unit {0}) (update_last_login e id now) (λ u w. u.id ≡ id) Any
  unfolding update_last_login update_user_row
  update_last_login-same id now =
      Triple-statement e _ (λ w p. tt)
        λ w p.
          let rows =
            update_where (λ r. r.id == id) (set_last_login (e.time w.tick) now) w.db.users in
          elim (Option-cases (select_first (λ r. r.id == id) rows)) [
            | inl nothing ↦ rw nothing tt
            | inr (u, it) ↦ rw it (found_key (λ r. r.id) id rows u it)
          ]

  module _ (provider : String) (info : ProviderUserInfo) where
    upsert_new :
        Triple
          (λ w. Unit {0})
          (create_provider_user e provider info)
          (λ u w. Identified d provider info u)
          Any
    unfolding create_provider_user
    upsert_new = after_unknown _ _ λ now.
        Triple-weaken_post _ (λ u w (named, (subject, address)). made named subject address)
          (Triple-map_error _ _ (create_user-made _))

    upsert_known :
        (row : User)
        → select_first
            (λ r.
              same_text r.provider (str_ptr provider) && same_text r.provider_id (str_ptr info.sub))
            d.users
          ≡ some row
        → Triple
            (λ w. Unit {0})
            (upsert_found e provider info (ok row))
            (λ u w. Identified d provider info u)
            Any
    unfolding upsert_found
    upsert_known row found = after_unknown _ _ λ now.
        Triple-weaken_post _ (λ u w same. known row found same)
          (Triple-map_error _ _ (update_last_login-same row.id now))

    pub upsert_user-Identified :
        Triple (Unchanged d) (upsert_user e provider info) (λ u w. Identified d provider info u) Any
    unfolding upsert_user get_user_by_provider_id attempt ◌>>=◌ upsert_found raise statement
    upsert_user-Identified = record {
      run = λ w p. elim (Bool-cases (e.fails w.tick)) [
        | inl fault ↦ rw fault tt
        | inr served ↦
            elim (Option-cases (
              select_first
                (λ r.
                  same_text r.provider (str_ptr provider)
                  && same_text r.provider_id (str_ptr info.sub))
                d.users)) [
                  | inl nothing ↦ rw (served, p.same, nothing) (upsert_new.run _ tt)
                  | inr (row, it) ↦ rw (served, p.same, it) ((upsert_known row it).run _ tt)
                ]
      ];
    }
