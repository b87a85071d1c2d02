-- ===== src/Repository/Logged.antt =====
-- An entry of the audit log never stops the method that makes it.
use goauth_server.Prelude.{Bool, true, false}
use goauth_server.Environment.{Environment}
use goauth_server.Exec.{Error, World, when, ignore}
use goauth_server.Exec.Hoare.{Triple, Triple-ignore}
use goauth_server.Exec.Keeps.{Keeps}
use goauth_server.Repository.Audit.{AuditEntry, audit, log_event}

-- The audit log stops nothing.
pub audit_step :
    (e : Environment) {P : World → Type 0} {E : Error → World → Type 0} (audited : Bool)
    (entry : AuditEntry)
    → Keeps P (audit e audited entry)
    → Triple P (audit e audited entry) (λ a. P) E
unfolding audit when ignore
audit_step e true entry k = Triple-ignore (log_event e entry) (record { at = λ w p. k.at w p })
audit_step e false entry k = record { run = λ w p. p }
