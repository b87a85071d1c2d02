-- ===== src/Auth/Rotation/Replay.antt =====
-- What the presentation of a revoked refresh token does.
use goauth_server.Prelude.{
  ℕ, ◌≡◌, ◌∙◌, ap, refl, true, false, ◌==◌, str_eq, eq_iff, String, List, [], ◌∷◌, Option, some,
  select_first, update_where, arith,
}
use goauth_server.Model.{Uuid, RefreshToken, Db}
use goauth_server.Environment.{Environment}
use goauth_server.Exec.{World, Error, ignore, statement, err, invalid_grant}
use goauth_server.Exec.Hoare.{
  Triple, Triple-bind, Triple-raise, Triple-weaken, Triple-if, Triple-pure, Triple-err,
}
use goauth_server.Exec.Keeps.{Ages}
use goauth_server.Exec.Facts.{Unchanged}
use goauth_server.Exec.Served.{pass_guard, pass_option, pass_last_guard, pass_query}
use goauth_server.Repository.Clients.{get_client}
use goauth_server.Repository.RefreshTokens.{get_refresh_token_by_hash, revoke_refresh_token_family}
use goauth_server.Repository.Logged.{audit_step}
use goauth_server.Repository.Blind.{frame_rules}
use goauth_server.Repository.Frames.{On, On-Ages, refresh_rows}
use goauth_server.Auth.Service.{Service, sha256_hex}
use goauth_server.Auth.Rotation.{
  authenticate_client, check_client, handle_replay, rotate_refresh_token,
}
use goauth_server.Auth.Rotation.Retires.{Retires, mark_revoked-Retires}
use goauth_server.Auth.Rotation.Family.{live}
use goauth_server.Auth.Rotation.Granted.{Authentic}

-- No token of the family is live.
pub record Extinct (family : Uuid) (t : ℕ) (rows : List RefreshToken) : Type 0 where
  pub none_live : live family rows ≡ 0

Extinct-Ages : (family : Uuid) → Ages (On refresh_rows (Extinct family))
Extinct-Ages family = On-Ages _ _ λ t rows p. record { none_live = p.none_live }

live-retired :
    {f : RefreshToken → RefreshToken} (retires : Retires f) (family : Uuid)
    (rows : List RefreshToken)
    → live family (update_where (λ r. r.token_family_id == family) f rows) ≡ 0
unfolding live update_where
live-retired retires family [] = refl
live-retired retires family (r ∷ rows) =
    ground (arith, live-retired retires family rows, retires.revoked r, retires.family r)

module _ (e : Environment) (s : Service) (served : (k : ℕ) → e.fails k ≡ false) where
  family_step :
      {E : Error → World → Type 0} (P : World → Type 0) (family : Uuid) (reason : Option String)
      → Triple P
          (ignore (revoke_refresh_token_family e family reason))
          (λ a. On refresh_rows (Extinct family))
          E
  unfolding ignore revoke_refresh_token_family statement refresh_rows
  family_step P family reason = record {
    run = λ w p. rw (served w.tick) (record {
      holds = record {
        none_live =
            live-retired (mark_revoked-Retires (e.time w.tick) reason) family w.db.refresh_tokens;
      };
    });
  }

  handle_replay-Extinct :
      (P : World → Type 0) (old : RefreshToken)
      → Triple P
          (handle_replay e s old)
          (λ a w. ⊥)
          (λ r w. (r ≡ invalid_grant) × On refresh_rows (Extinct old.token_family_id) w)
  unfolding handle_replay
  handle_replay-Extinct P old = Triple-bind _ _ _ (family_step P old.token_family_id _) λ _.
      Triple-bind _ _ _ (audit_step e _ _ (search (frame_rules, Extinct-Ages))) λ _.
        Triple-bind _ _ _ (audit_step e _ _ (search (frame_rules, Extinct-Ages)))
          λ _. Triple-raise _ (λ w p. (refl, p))

  module _ (d : Db) (cid : Uuid) (client_id client_secret : String)
      (parsed : e.parse_uuid client_id ≡ some cid)
      (authentic : Authentic e d cid client_secret) where
    authenticate_client_passes :
        {E : Error → World → Type 0}
        → Triple
            (Unchanged d)
            (authenticate_client e s client_id client_secret)
            (λ a w. Unchanged d w × (a ≡ cid))
            E
    unfolding authenticate_client get_client check_client
    authenticate_client_passes = pass_option _ _ _ cid parsed (
        pass_query e served d _ (λ d'. select_first (λ r. r.id == cid) d'.clients) _
          authentic.client authentic.found
          (Triple-bind (λ a. Unchanged d) _ _
            (pass_guard _ _ _ (rw authentic.active refl)
              (pass_last_guard _ _ ((eq_iff _ _).1 authentic.secret_hash)))
            λ _. Triple-pure cid (λ w p. (p, refl))))

    rotate-Extinct :
        (raw_token : String) (old : RefreshToken)
        → select_first (λ r. str_eq r.token_hash (sha256_hex e raw_token)) d.refresh_tokens
          ≡ some old
        → old.is_revoked ≡ true
        → Triple
            (Unchanged d)
            (rotate_refresh_token e s raw_token client_id client_secret)
            (λ a w. ⊥)
            (λ r w. (r ≡ invalid_grant) × On refresh_rows (Extinct old.token_family_id) w)
    unfolding rotate_refresh_token get_refresh_token_by_hash
    rotate-Extinct raw_token old found revoked =
        Triple-bind _ _ _ authenticate_client_passes λ cid'.
          Triple-weaken _ (λ w p. p.0)
            (pass_query e served d _
              (λ d'.
                select_first (λ r. str_eq r.token_hash (sha256_hex e raw_token)) d'.refresh_tokens)
              _ old found
              (Triple-if old.is_revoked _ _ (λ _. handle_replay-Extinct (Unchanged d) old)
                (λ live. record { run = λ w p. cc (live, revoked) })))

-- Where no statement fails, the presentation of a revoked refresh token by an active client with the
-- right secret returns `invalid_grant`, and leaves no live token in the family of that token.
pub replay_revokes :
    (e : Environment) (s : Service) (served : (k : ℕ) → e.fails k ≡ false)
    (raw_token client_id client_secret : String) (cid : Uuid) (old : RefreshToken) (w : World)
    → e.parse_uuid client_id ≡ some cid
    → Authentic e w.db cid client_secret
    → select_first (λ r. str_eq r.token_hash (sha256_hex e raw_token)) w.db.refresh_tokens
      ≡ some old
    → old.is_revoked ≡ true
    → let (result, w') = rotate_refresh_token e s raw_token client_id client_secret w in
      (result ≡ err invalid_grant) × (live old.token_family_id w'.db.refresh_tokens ≡ 0)
unfolding refresh_rows
replay_revokes e s served raw_token client_id client_secret cid old w parsed authentic found
      revoked =
    let (r, (failed, (same, gone))) =
      Triple-err
        (rotate-Extinct e s served w.db cid client_id client_secret parsed authentic raw_token old
          found revoked)
        w (record { same = refl }) in
    (failed ∙ ap err same, gone.holds.none_live)
