-- ===== src/Repository/Frames.antt =====
-- What a query leaves alone. A predicate `On view P` speaks of one table, `view`, and of the number of
-- questions so far; every query keeps it that does not write the table.
use goauth_server.Prelude.{
  ℕ, ◌+◌, String, ◌≡◌, refl, sym, subst, Bool, Option, List, ◌∷◌, ◌==◌, update_where, arith,
}
use goauth_server.Model.{Uuid, Time, Db, AccessToken, AuthorizationCode, Client, RefreshToken, User}
use goauth_server.Environment.{Environment}
use goauth_server.Exec.{Result, World, statement}
use goauth_server.Exec.Keeps.{
  Keeps, Ages, Keeps-statement, Keeps-ignore, Keeps-when, Keeps-bind, Keeps-pure,
}
use goauth_server.Repository.RefreshTokens.{
  CreateRefreshTokenParams, create_refresh_token, get_refresh_token_by_hash,
  mark_refresh_token_used, revoke_refresh_token, revoke_refresh_token_family,
  revoke_refresh_tokens_by_user, set_refresh_tokens, new_refresh_token,
}
use goauth_server.Repository.AccessTokens.{
  CreateAccessTokenParams, create_access_token, get_access_token, get_access_token_by_id,
  revoke_access_token, revoke_access_tokens_by_user, set_access_tokens, new_access_token,
}
use goauth_server.Repository.Codes.{get_authorization_code, mark_authorization_code_used, set_codes}
use goauth_server.Repository.Clients.{get_client}
use goauth_server.Repository.Users.{
  get_user_by_id, get_user_by_email_for_auth, increment_failed_login_attempts, lock_user_account,
  reset_login_attempts, update_last_login, set_force_password_change, update_password_hash,
  update_user_row, set_users, set_failed,
}
use goauth_server.Repository.Audit.{
  AuditEntry, create_audit_log_entry, audit, new_audit_log, set_audit_log,
}

pub record On {T : Type 0} (view : Db → T) (P : ℕ → T → Type 0) (w : World) : Type 0 where
  pub holds : P w.tick (view w.db)

-- Writing another table does not change the view.
pub record Blind {T R : Type 0} (view : Db → T) (write : Db → R → Db) : Type 0 where
  pub same : (d : Db) (rows : R) → view (write d rows) ≡ view d

unfoldable pub refresh_rows : Db → List RefreshToken
refresh_rows d = d.refresh_tokens

unfoldable pub access_rows : Db → List AccessToken
access_rows d = d.access_tokens

unfoldable pub code_rows : Db → List AuthorizationCode
code_rows d = d.codes

unfoldable pub user_rows : Db → List User
user_rows d = d.users

unfoldable pub client_rows : Db → List Client
client_rows d = d.clients

pub On-Ages :
    {T : Type 0} (view : Db → T) (P : ℕ → T → Type 0)
    → ((t : ℕ) (x : T) → P t x → P (t + 1) x)
    → Ages (On view P)
On-Ages view P h = record { at = λ w p. record { holds = h w.tick (view w.db) p.holds } }

module _ (e : Environment) {T : Type 0} {view : Db → T} {P : ℕ → T → Type 0} where
  pub On-statement :
      {A : Type 0} (run : ℕ → ℕ → Db → Result A × Db)
      → Ages (On view P)
      → ((t u : ℕ) (d : Db) → view (run t u d).1 ≡ view d)
      → Keeps (On view P) (statement e run)
  On-statement run a h = Keeps-statement e run a λ w p. record {
    holds = subst (P (w.tick + 1)) (sym (h (e.time w.tick) (e.uuid w.tick) w.db)) (a.at w p).holds;
  }

  pub get_client-On : (c : Uuid) → Ages (On view P) → Keeps (On view P) (get_client e c)
  unfolding get_client
  get_client-On c a = On-statement _ a (λ t u d. refl)

  pub get_refresh_token_by_hash-On :
      (h : String) → Ages (On view P) → Keeps (On view P) (get_refresh_token_by_hash e h)
  unfolding get_refresh_token_by_hash
  get_refresh_token_by_hash-On h a = On-statement _ a (λ t u d. refl)

  pub get_access_token-On :
      (h : String) → Ages (On view P) → Keeps (On view P) (get_access_token e h)
  unfolding get_access_token
  get_access_token-On h a = On-statement _ a (λ t u d. refl)

  pub get_access_token_by_id-On :
      (i : Uuid) → Ages (On view P) → Keeps (On view P) (get_access_token_by_id e i)
  unfolding get_access_token_by_id
  get_access_token_by_id-On i a = On-statement _ a (λ t u d. refl)

  pub get_authorization_code-On :
      (c : String) → Ages (On view P) → Keeps (On view P) (get_authorization_code e c)
  unfolding get_authorization_code
  get_authorization_code-On c a = On-statement _ a (λ t u d. refl)

  pub get_user_by_id-On : (i : Uuid) → Ages (On view P) → Keeps (On view P) (get_user_by_id e i)
  unfolding get_user_by_id
  get_user_by_id-On i a = On-statement _ a (λ t u d. refl)

  pub get_user_by_email_for_auth-On :
      (m : String) → Ages (On view P) → Keeps (On view P) (get_user_by_email_for_auth e m)
  unfolding get_user_by_email_for_auth
  get_user_by_email_for_auth-On m a = On-statement _ a (λ t u d. refl)

  module _ (b : Blind view set_access_tokens) where
    pub create_access_token-On :
        (arg : CreateAccessTokenParams)
        → Ages (On view P)
        → Keeps (On view P) (create_access_token e arg)
    unfolding create_access_token
    create_access_token-On arg a =
        On-statement _ a
          (λ t u d. ground (arith, b.same d (new_access_token t u arg ∷ d.access_tokens)))

    pub revoke_access_token-On :
        (i : Uuid) → Ages (On view P) → Keeps (On view P) (revoke_access_token e i)
    unfolding revoke_access_token
    revoke_access_token-On i a = On-statement _ a (λ t u d. b.same d _)

    pub revoke_access_tokens_by_user-On :
        (i : Uuid) → Ages (On view P) → Keeps (On view P) (revoke_access_tokens_by_user e i)
    unfolding revoke_access_tokens_by_user
    revoke_access_tokens_by_user-On i a = On-statement _ a (λ t u d. b.same d _)

  module _ (b : Blind view set_refresh_tokens) where
    pub create_refresh_token-On :
        (arg : CreateRefreshTokenParams)
        → Ages (On view P)
        → Keeps (On view P) (create_refresh_token e arg)
    unfolding create_refresh_token
    create_refresh_token-On arg a =
        On-statement _ a
          (λ t u d. ground (arith, b.same d (new_refresh_token t u arg ∷ d.refresh_tokens)))

    pub mark_refresh_token_used-On :
        (i : Uuid) → Ages (On view P) → Keeps (On view P) (mark_refresh_token_used e i)
    unfolding mark_refresh_token_used
    mark_refresh_token_used-On i a = On-statement _ a (λ t u d. b.same d _)

    pub revoke_refresh_token-On :
        (i : Uuid) (r : Option String)
        → Ages (On view P)
        → Keeps (On view P) (revoke_refresh_token e i r)
    unfolding revoke_refresh_token
    revoke_refresh_token-On i r a = On-statement _ a (λ t u d. b.same d _)

    pub revoke_refresh_token_family-On :
        (i : Uuid) (r : Option String)
        → Ages (On view P)
        → Keeps (On view P) (revoke_refresh_token_family e i r)
    unfolding revoke_refresh_token_family
    revoke_refresh_token_family-On i r a = On-statement _ a (λ t u d. b.same d _)

    pub revoke_refresh_tokens_by_user-On :
        (i : Uuid) (r : Option String)
        → Ages (On view P)
        → Keeps (On view P) (revoke_refresh_tokens_by_user e i r)
    unfolding revoke_refresh_tokens_by_user
    revoke_refresh_tokens_by_user-On i r a = On-statement _ a (λ t u d. b.same d _)

  module _ (b : Blind view set_codes) where
    pub mark_authorization_code_used-On :
        (i : Uuid) → Ages (On view P) → Keeps (On view P) (mark_authorization_code_used e i)
    unfolding mark_authorization_code_used
    mark_authorization_code_used-On i a = On-statement _ a (λ t u d. b.same d _)

  module _ (b : Blind view set_users) where
    pub increment_failed_login_attempts-On :
        (i : Uuid) → Ages (On view P) → Keeps (On view P) (increment_failed_login_attempts e i)
    unfolding increment_failed_login_attempts update_user_row
    increment_failed_login_attempts-On i a =
        On-statement _ a
          (λ t u d. ground (arith, b.same d (update_where (λ r. r.id == i) (set_failed t) d.users)))

    pub lock_user_account-On :
        (i : Uuid) (until : Time)
        → Ages (On view P)
        → Keeps (On view P) (lock_user_account e i until)
    unfolding lock_user_account update_user_row
    lock_user_account-On i until a = On-statement _ a (λ t u d. b.same d _)

    pub reset_login_attempts-On :
        (i : Uuid) → Ages (On view P) → Keeps (On view P) (reset_login_attempts e i)
    unfolding reset_login_attempts update_user_row
    reset_login_attempts-On i a = On-statement _ a (λ t u d. b.same d _)

    pub update_last_login-On :
        (i : Uuid) (at : Time) → Ages (On view P) → Keeps (On view P) (update_last_login e i at)
    unfolding update_last_login update_user_row
    update_last_login-On i at a = On-statement _ a (λ t u d. b.same d _)

    pub set_force_password_change-On :
        (i : Uuid) (f : Bool)
        → Ages (On view P)
        → Keeps (On view P) (set_force_password_change e i f)
    unfolding set_force_password_change update_user_row
    set_force_password_change-On i f a = On-statement _ a (λ t u d. b.same d _)

    pub update_password_hash-On :
        (i : Uuid) (h : Option String)
        → Ages (On view P)
        → Keeps (On view P) (update_password_hash e i h)
    unfolding update_password_hash update_user_row
    update_password_hash-On i h a = On-statement _ a (λ t u d. b.same d _)

  module _ (b : Blind view set_audit_log) where
    pub audit-On :
        (audited : Bool) (entry : AuditEntry)
        → Ages (On view P)
        → Keeps (On view P) (audit e audited entry)
    unfolding audit create_audit_log_entry
    audit-On audited entry a = Keeps-when audited _ (
        Keeps-ignore _ (
          Keeps-bind _ _
            (On-statement _ a
              (λ t u d. ground (arith, b.same d (new_audit_log t u entry ∷ d.audit_log))))
            (λ _. Keeps-pure tt)))
