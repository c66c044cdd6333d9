-- ===== src/Audit/Tracker/Tests.antt =====
-- Runs of the failure tracker, and its theorems at concrete histories.
use alma_lead_management_ser.Common.{
  ℕ, ◌+◌, ◌-◌, ◌/◌, ◌≡◌, refl, true, some, List, [], ◌∷◌, ◌++◌, arith, codes,
}
use alma_lead_management_ser.Audit.Tracker.{
  AuditFailureTracker, PyError, degraded, recovered, Event, failure, success, health_check,
  new_tracker, record_failure, run,
}
use alma_lead_management_ser.Audit.Tracker.Counting.{failures}
use alma_lead_management_ser.Audit.Tracker.Alerts.{criticals, criticals-outage}
use alma_lead_management_ser.Audit.Tracker.Window.{window-drops_recent}

abbrev db_down : PyError
db_down = record { type_name = codes "OSError"; message = codes "db down" }

abbrev fail_at : ℕ → Event
fail_at now = failure now (now + 1000) db_down

abbrev outage : List Event
outage = fail_at 10 ∷ fail_at 20 ∷ health_check 25 ∷ fail_at 30 ∷ fail_at 40 ∷ []

abbrev shaken : AuditFailureTracker
shaken = record {
  consecutive = 4;
  window_failures = 4;
  window_start = 0;
  last_error = some (codes "OSError: db down");
  last_error_ts = some 1040;
  alerted = true;
}

run-outage : run outage (new_tracker 0) ≡ (shaken, degraded 3 3 (codes "OSError: db down") ∷ [])
unfolding run new_tracker
run-outage = refl

run-recovery :
    (run (outage ++ success ∷ []) (new_tracker 0)).1
    ≡ degraded 3 3 (codes "OSError: db down") ∷ recovered 4 ∷ []
unfolding run new_tracker
run-recovery = refl

criticals-outage_example :
    criticals (run outage shaken).1
    ≡ (shaken.consecutive + failures outage) / 3 - shaken.consecutive / 3
criticals-outage_example = criticals-outage outage shaken refl tt

window-drops_recent_example :
    (record_failure 300 1300 db_down (record_failure 299 1299 db_down shaken).0).0.window_failures
    ≡ 1
window-drops_recent_example =
    window-drops_recent shaken 299 300 1299 1300 db_down db_down (omega arith) (omega arith)
