-- ===== src/Audit/Log/Tests.antt =====
-- Writes and listings of the audit trail at concrete rows, and the theorems at them.
use alma_lead_management_ser.Common.{◌≡◌, refl, false, none, some, [], ◌∷◌, codes}
use alma_lead_management_ser.Engine.Memory.{memory_engine}
use alma_lead_management_ser.Engine.Fixtures.{office, creation_entry}
use alma_lead_management_ser.Audit.Sanitize.{sanitize, is_control_char}
use alma_lead_management_ser.Audit.Tracker.{PyError}
use alma_lead_management_ser.Audit.Log.{
  Action, Surroundings, Trail, new_entry, state_change, get_all_audit_logs,
}
use alma_lead_management_ser.Audit.Log.Writes.{FitsColumns, new_entry-FitsColumns}

abbrev db_error : PyError
db_error = record { type_name = codes "IntegrityError"; message = codes "FOREIGN KEY" }

abbrev calm : Surroundings
calm = record {
  fresh_id = 30;
  now = 800;
  monotonic = 40;
  wall = 1040;
  fault = none;
  violation = db_error;
}

abbrev reached : Action
reached = record {
  entity_type = codes "lead";
  entity_id = 12;
  action = codes "state_change";
  user_id = some 2;
  user_email = some (codes "bob@alma.com");
  old_state = some (codes "PENDING");
  new_state = some (codes "REACHED_OUT");
  detail = none;
  lead_id = some 12;
}

-- Two audit writes in a row have failed.
abbrev trail : Trail memory_engine
trail = record {
  db = office;
  tracker = record {
    consecutive = 2;
    window_failures = 2;
    window_start = 0;
    last_error = some (codes "OSError: db down");
    last_error_ts = some 1030;
    alerted = false;
  };
}

reached_lem :
    state_change 12 2 (codes "bob@alma.com") (codes "PENDING") (codes "REACHED_OUT") ≡ reached
unfolding state_change
reached_lem = refl

get_all_audit_logs-office :
    get_all_audit_logs memory_engine office (some (codes "lead")) none 1 1
    ≡ (creation_entry ∷ [], 2)
unfolding get_all_audit_logs
get_all_audit_logs-office = refl

new_entry-FitsColumns_example : FitsColumns (new_entry calm reached)
unfolding sanitize is_control_char
new_entry-FitsColumns_example = new_entry-FitsColumns calm reached (λ e. cc) (λ e. cc)
