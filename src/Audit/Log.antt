-- ===== src/Audit/Log.antt =====
-- `record_action` and the queries of app/services/audit_service.py, on the table `audit_logs`.
pub mod Writes
pub mod Queries
mod Tests
use alma_lead_management_ser.Common.{
  ℕ, Bool, true, false, ◌&&◌, Option, none, some, List, [], ◌∷◌, ◌==◌, if◌then◌else◌, Text, text_eq,
  truthy, codes,
}
use alma_lead_management_ser.Models.{AuditLog}
use alma_lead_management_ser.Engine.{Engine, Db, user_fk, lead_fk}
use alma_lead_management_ser.Audit.Sanitize.{sanitize, max_short, max_detail}
use alma_lead_management_ser.Audit.Tracker.{
  AuditFailureTracker, PyError, LogCall, record_failure, record_success,
}

-- The keyword arguments of `record_action`.
pub record Action : Type 0 where
  pub entity_type : Text
  pub entity_id : ℕ
  pub action : Text
  pub user_id : Option ℕ
  pub user_email : Option Text
  pub old_state : Option Text
  pub new_state : Option Text
  pub detail : Option Text
  pub lead_id : Option ℕ

-- `x or y`, where `x` may be None.
abbrev pub or_text : Option Text → Text → Text
or_text none y = y
or_text (some x) y = if truthy x then x else y

-- What one background task meets: the key and the time of the new row, the two clocks of the
-- tracker, the exception that the session raises if the database cannot be reached, and the one
-- that it raises when a constraint is violated.
pub record Surroundings : Type 0 where
  pub fresh_id : ℕ
  pub now : ℕ
  pub monotonic : ℕ
  pub wall : ℕ
  pub fault : Option PyError
  pub violation : PyError

unfoldable pub new_entry : Surroundings → Action → AuditLog
new_entry env a = record {
  id = env.fresh_id;
  entity_type = or_text (sanitize max_short (some a.entity_type)) a.entity_type;
  entity_id = a.entity_id;
  action = or_text (sanitize max_short (some a.action)) a.action;
  user_id = a.user_id;
  user_email = sanitize 255 a.user_email;
  old_state = sanitize max_short a.old_state;
  new_state = sanitize max_short a.new_state;
  detail = sanitize max_detail a.detail;
  lead_id = a.lead_id;
  created_at = env.now;
}

-- `record_state_change`
unfoldable pub state_change :
    (lead_id user_id : ℕ) → (user_email old_state new_state : Text) → Action
state_change lead_id user_id user_email old_state new_state = record {
  entity_type = codes "lead";
  entity_id = lead_id;
  action = codes "state_change";
  user_id = some user_id;
  user_email = some user_email;
  old_state = some old_state;
  new_state = some new_state;
  detail = none;
  lead_id = some lead_id;
}

abbrev pub of_lead : ℕ → AuditLog → Bool
of_lead k a = elim a.lead_id [ none ↦ false | some j ↦ j == k ]

-- `if wanted: query.where(column == wanted)`
abbrev pub where_eq : Option Text → Text → Bool
where_eq none column = true
where_eq (some wanted) column = if truthy wanted then text_eq column wanted else true

abbrev pub wanted_logs : (entity_type action : Option Text) → AuditLog → Bool
wanted_logs entity_type action a = where_eq entity_type a.entity_type && where_eq action a.action

module _ (E : Engine) where
  -- What the background tasks share with the rest of the process.
  pub record Trail : Type 0 where
    pub db : Db E
    pub tracker : AuditFailureTracker

  -- The body of the `async with`: a new database, or the exception that was raised.
  pub data Written : Type 0 where
    committed : Db E → Written
    raised : PyError → Written

  abbrev inserted : Surroundings → Db E → Option E.audit_logs.Store → Written
  inserted env db none = raised env.violation
  inserted env db (some logs) = committed (record db { audit_logs = logs })

  -- `session.add(entry)` and `commit()`, with the two foreign keys of the row.
  unfoldable pub write_entry : Surroundings → AuditLog → Db E → Written
  write_entry env entry db = elim env.fault [
    | some e ↦ raised e
    | none ↦
        if user_fk E entry.user_id db && lead_fk E entry.lead_id db
        then inserted env db (E.audit_logs.insert entry db.audit_logs)
        else raised env.violation
  ]

  abbrev settle : Surroundings → Trail → Written → Trail × List LogCall
  settle env t (committed db) =
      let (tracker, lines) = record_success t.tracker in
      (record { db = db; tracker = tracker }, lines)
  settle env t (raised e) =
      let (tracker, lines) = record_failure env.monotonic env.wall e t.tracker in
      (record t { tracker = tracker }, lines)

  unfoldable pub record_action : Surroundings → Action → Trail → Trail × List LogCall
  unfolding write_entry new_entry
  record_action env a t = settle env t (write_entry env (new_entry env a) t.db)

  unfoldable pub get_lead_audit_logs : Db E → ℕ → List AuditLog
  get_lead_audit_logs db lead_id =
      E.audit_logs.order (of_lead lead_id) (λ a. a.created_at) db.audit_logs

  unfoldable pub get_all_audit_logs :
      Db E → (entity_type action : Option Text) → (limit offset : ℕ) → List AuditLog × ℕ
  get_all_audit_logs db entity_type action limit offset =
      let wanted = wanted_logs entity_type action in
      (
        E.audit_logs.page wanted (λ a. a.created_at) limit offset db.audit_logs,
        E.audit_logs.count wanted db.audit_logs,
      )
