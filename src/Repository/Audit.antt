-- ===== src/Repository/Audit.antt =====
-- internal/repository/audit_log.sql.go, and internal/service/audit: `LogEvent` stores one entry. The
-- metadata of the program are texts, which json.Marshal never refuses.
use goauth_server.Prelude.{
  ℕ, String, Bool, Option, none, some, List, ◌∷◌, ◌==◌, if◌then◌else◌, exists,
}
use goauth_server.Model.{Uuid, AuditLog, Db, nil_uuid}
use goauth_server.Environment.{Environment}
use goauth_server.Exec.{ok, err, M, statement, unique_violation, ◌>>◌, pure, ignore, when}

-- internal/service/audit/events.go
pub data EventType : Type 0 where
  default_admin_created default_client_created user_password_changed : EventType
  force_password_change_satisfied refresh_token_issued refresh_token_rotated : EventType
  refresh_token_revoked refresh_token_family_revoked replay_detected : EventType
  access_token_revoked admin_session_revoked login_failed account_locked : EventType
  account_unlocked client_secret_regenerated : EventType

unfoldable pub event_string : EventType → String
event_string default_admin_created = "default_admin_created"
event_string default_client_created = "default_client_created"
event_string user_password_changed = "user_password_changed"
event_string force_password_change_satisfied = "force_password_change_satisfied"
event_string refresh_token_issued = "refresh_token_issued"
event_string refresh_token_rotated = "refresh_token_rotated"
event_string refresh_token_revoked = "refresh_token_revoked"
event_string refresh_token_family_revoked = "refresh_token_family_revoked"
event_string replay_detected = "replay_detected"
event_string access_token_revoked = "access_token_revoked"
event_string admin_session_revoked = "admin_session_revoked"
event_string login_failed = "login_failed"
event_string account_locked = "account_locked"
event_string account_unlocked = "account_unlocked"
event_string client_secret_regenerated = "client_secret_regenerated"

pub record AuditEntry : Type 0 where
  pub event_type : EventType
  pub user_id : Option Uuid
  pub client_id : Option Uuid
  pub actor_id : Option Uuid
  pub ip_address : Option String
  pub metadata : List (String × String)

abbrev or_nil : Option Uuid → Uuid
or_nil none = nil_uuid
or_nil (some u) = u

unfoldable pub new_audit_log : ℕ → ℕ → AuditEntry → AuditLog
unfolding event_string
new_audit_log now id entry = record {
  id = id;
  event_type = event_string entry.event_type;
  user_id = or_nil entry.user_id;
  client_id = or_nil entry.client_id;
  actor_id = or_nil entry.actor_id;
  ip_address = entry.ip_address;
  metadata = entry.metadata;
  created_at = now;
}

abbrev pub set_audit_log : Db → List AuditLog → Db
set_audit_log d rows = record d { audit_log = rows }

unfoldable pub create_audit_log_entry : Environment → AuditEntry → M Uuid
create_audit_log_entry e entry = statement e λ now id d.
    if exists (λ r. r.id == id) d.audit_log
    then (err unique_violation, d)
    else (ok id, set_audit_log d (new_audit_log now id entry ∷ d.audit_log))

unfoldable pub log_event : Environment → AuditEntry → M (Unit {0})
log_event e entry = do create_audit_log_entry e entry; pure tt

-- `if s.auditSvc != nil { _ = s.auditSvc.LogEvent(...) }`
unfoldable pub audit : Environment → Bool → AuditEntry → M (Unit {0})
unfolding log_event
audit e audited entry = when audited (ignore (log_event e entry))
