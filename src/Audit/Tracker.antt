-- ===== src/Audit/Tracker.antt =====
-- The failure tracker of app/services/audit_service.py, `_AuditFailureTracker`: one call of a
-- method under its lock is one function here. The two clocks, `time.monotonic()` and
-- `time.time()`, are arguments in whole seconds; a call of the logger is a value.
pub mod Counting
pub mod Alerts
pub mod Window
mod Tests
use alma_lead_management_ser.Common.{
  ℕ, ◌+◌, ◌-◌, ◌%◌, Bool, true, false, not, ◌&&◌, Option, none, some, List, [], ◌∷◌, ◌++◌, ltb, leb,
  ◌==◌, if◌then◌else◌, Text, codes,
}

abbrev pub alert_threshold : ℕ
alert_threshold = 3

abbrev pub window_seconds : ℕ
window_seconds = 300

pub record AuditFailureTracker : Type 0 where
  pub consecutive : ℕ
  pub window_failures : ℕ
  pub window_start : ℕ
  pub last_error : Option Text
  pub last_error_ts : Option ℕ
  pub alerted : Bool

-- An exception, as `type(error).__name__` and `str(error)`.
pub record PyError : Type 0 where
  pub type_name : Text
  pub message : Text

pub data LogCall : Type 0 where
  degraded : (consecutive window_failures : ℕ) → (last_error : Text) → LogCall
  still_degraded : (consecutive : ℕ) → LogCall
  recovered : (consecutive : ℕ) → LogCall

unfoldable pub new_tracker : ℕ → AuditFailureTracker
new_tracker now = record {
  consecutive = 0;
  window_failures = 0;
  window_start = now;
  last_error = none;
  last_error_ts = none;
  alerted = false;
}

unfoldable pub maybe_reset_window : ℕ → AuditFailureTracker → AuditFailureTracker
maybe_reset_window now t =
    if leb window_seconds (now - t.window_start)
    then record t { window_failures = 0; window_start = now }
    else t

abbrev pub describe : PyError → Text
describe e = e.type_name ++ (codes ": " ++ e.message)

-- The counters and the last error, as they stand when the threshold is tested.
count_failure : ℕ → ℕ → PyError → AuditFailureTracker → AuditFailureTracker
unfolding maybe_reset_window
count_failure now wall e t =
    let t' = maybe_reset_window now t in
    record t' {
      consecutive = t'.consecutive + 1;
      window_failures = t'.window_failures + 1;
      last_error = some (describe e);
      last_error_ts = some wall;
    }

-- The `if` and the `elif` that choose what is logged.
escalate : Text → AuditFailureTracker → AuditFailureTracker × List LogCall
escalate text t =
    if leb alert_threshold t.consecutive && not t.alerted
    then (record t { alerted = true }, degraded t.consecutive t.window_failures text ∷ [])
    else if t.alerted && (t.consecutive % alert_threshold == 0)
    then (t, still_degraded t.consecutive ∷ [])
    else (t, [])

unfoldable pub record_failure :
    ℕ → ℕ → PyError → AuditFailureTracker → AuditFailureTracker × List LogCall
unfolding count_failure escalate
record_failure now wall e t = escalate (describe e) (count_failure now wall e t)

unfoldable pub record_success : AuditFailureTracker → AuditFailureTracker × List LogCall
record_success t = (
  record t { consecutive = 0; alerted = false },
  if t.alerted then recovered t.consecutive ∷ [] else [],
)

pub record AuditHealth : Type 0 where
  pub healthy : Bool
  pub consecutive_failures : ℕ
  pub window_failures : ℕ
  pub window_length : ℕ
  pub last_error : Option Text

unfoldable pub health : ℕ → AuditFailureTracker → AuditFailureTracker × AuditHealth
unfolding maybe_reset_window
health now t =
    let t' = maybe_reset_window now t in
    (
      t',
      record {
        healthy = ltb t'.consecutive alert_threshold;
        consecutive_failures = t'.consecutive;
        window_failures = t'.window_failures;
        window_length = window_seconds;
        last_error = t'.last_error;
      },
    )

-- What happens to the tracker while the service runs, in the order in which the lock is taken.
pub data Event : Type 0 where
  failure : (now wall : ℕ) → PyError → Event
  success : Event
  health_check : (now : ℕ) → Event

unfoldable pub step : Event → AuditFailureTracker → AuditFailureTracker × List LogCall
unfolding record_failure record_success health
step (failure now wall e) t = record_failure now wall e t
step success t = record_success t
step (health_check now) t = ((health now t).0, [])

unfoldable pub run : List Event → AuditFailureTracker → AuditFailureTracker × List LogCall
unfolding step
run [] t = (t, [])
run (e ∷ es) t = let (t', lines) = step e t in let (t'', more) = run es t' in (t'', lines ++ more)
