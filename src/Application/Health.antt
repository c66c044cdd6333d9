-- ===== src/Application/Health.antt =====
-- When the health check reports trouble.
use alma_lead_management_ser.Common.{ℕ, ◌<◌, ◌≡◌, ◌↔◌, Bool, true, arith}
use alma_lead_management_ser.Audit.Tracker.{AuditFailureTracker, health, maybe_reset_window}
use alma_lead_management_ser.Application.{health_check}

-- The answer is 200 exactly when the database is reachable and fewer than three audit writes in a
-- row have failed. The check does not change how many have.
pub health_check_iff :
    (db_ok : Bool) (now : ℕ) (t : AuditFailureTracker)
    → let (t', body) = health_check db_ok now t in
      ((body.status_code ≡ 200) ↔ ((db_ok ≡ true) × (t.consecutive < 3)))
      × (t'.consecutive ≡ t.consecutive)
unfolding health_check health maybe_reset_window
health_check_iff db_ok now t = ground arith
