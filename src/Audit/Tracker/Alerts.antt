-- ===== src/Audit/Tracker/Alerts.antt =====
-- When the failure tracker writes to the log.
use alma_lead_management_ser.Common.{
  ℕ, ◌+◌, ◌-◌, ◌/◌, ◌≤◌, ◌<◌, ◌≡◌, refl, ap, false, List, [], ◌∷◌, ◌++◌, leb, arith,
}
use alma_lead_management_ser.Audit.Tracker.{
  AuditFailureTracker, Event, failure, success, health_check, LogCall, degraded, still_degraded,
  recovered, new_tracker, maybe_reset_window, record_failure, record_success, run, step,
  alert_threshold, PyError,
}
use alma_lead_management_ser.Audit.Tracker.Counting.{failures, NoSuccess, consecutive-run}

-- The flag `_alerted` says that the threshold has been reached.
abbrev pub IsConsistent : AuditFailureTracker → Type 0
IsConsistent t = t.alerted ≡ leb alert_threshold t.consecutive

-- The lines at level CRITICAL.
abbrev pub criticals : List LogCall → ℕ
criticals [] = 0
criticals (degraded c w text ∷ ls) = criticals ls + 1
criticals (still_degraded c ∷ ls) = criticals ls + 1
criticals (recovered c ∷ ls) = criticals ls

criticals-append : (ks ls : List LogCall) → criticals (ks ++ ls) ≡ criticals ks + criticals ls
criticals-append [] ls = omega arith
criticals-append (degraded c w text ∷ ks) ls = omega (arith, criticals-append ks ls)
criticals-append (still_degraded c ∷ ks) ls = omega (arith, criticals-append ks ls)
criticals-append (recovered c ∷ ks) ls = omega (arith, criticals-append ks ls)

reset-IsConsistent :
    (now : ℕ) (t : AuditFailureTracker) → IsConsistent t → IsConsistent (maybe_reset_window now t)
unfolding maybe_reset_window
reset-IsConsistent now t h = ground arith

pub step-IsConsistent :
    (e : Event) (t : AuditFailureTracker) → IsConsistent t → IsConsistent (step e t).0
unfolding step
step-IsConsistent (failure now wall e) t h = ground arith
step-IsConsistent success t h = ground arith
step-IsConsistent (health_check now) t h = ground arith

-- In every history from the start of the process, the alert flag is set exactly while three or
-- more writes in a row have failed.
pub run-IsConsistent : (es : List Event) (start : ℕ) → IsConsistent (run es (new_tracker start)).0
unfolding run new_tracker
run-IsConsistent es start = go es (new_tracker start) refl
  where
    go : (fs : List Event) (t : AuditFailureTracker) → IsConsistent t → IsConsistent (run fs t).0
    go [] t h = h
    go (f ∷ fs) t h = go fs (step f t).0 (step-IsConsistent f t h)

-- One failed write logs at level CRITICAL at each multiple of the threshold, and else nothing.
criticals-record_failure :
    (now wall : ℕ) (e : PyError) (t : AuditFailureTracker)
    → IsConsistent t
    → criticals (record_failure now wall e t).1 ≡ (t.consecutive + 1) / 3 - t.consecutive / 3
unfolding record_failure maybe_reset_window
criticals-record_failure now wall e t h = ground arith

criticals-step :
    (e : Event) (t : AuditFailureTracker)
    → IsConsistent t
    → NoSuccess (e ∷ [])
    → criticals (step e t).1 + t.consecutive / 3 ≡ (step e t).0.consecutive / 3
unfolding step maybe_reset_window
criticals-step (failure now wall e) t h k = ground arith
criticals-step success t h k = absurd k
criticals-step (health_check now) t h k = ground arith

criticals-run :
    (es : List Event) (t : AuditFailureTracker)
    → IsConsistent t
    → NoSuccess es
    → criticals (run es t).1 + t.consecutive / 3 ≡ (run es t).0.consecutive / 3
unfolding run
criticals-run [] t h k = omega arith
criticals-run (failure now wall e ∷ es) t h k =
    let t' = (step (failure now wall e) t).0 in
    omega (
      arith,
      criticals-append (step (failure now wall e) t).1 (run es t').1,
      criticals-step (failure now wall e) t h tt,
      criticals-run es t' (step-IsConsistent (failure now wall e) t h) k,
    )
criticals-run (success ∷ es) t h k = absurd k
criticals-run (health_check now ∷ es) t h k =
    let t' = (step (health_check now) t).0 in
    omega (
      arith,
      criticals-append (step (health_check now) t).1 (run es t').1,
      criticals-step (health_check now) t h tt,
      criticals-run es t' (step-IsConsistent (health_check now) t h) k,
    )

-- In a stretch of the service in which no audit write succeeds, and which begins with `c` writes
-- failed in a row, `n` failures log exactly (c + n) / 3 - c / 3 lines at level CRITICAL: one at each
-- third failure in a row. Health checks in between change nothing.
pub criticals-outage :
    (es : List Event) (t : AuditFailureTracker)
    → IsConsistent t
    → NoSuccess es
    → criticals (run es t).1 ≡ (t.consecutive + failures es) / 3 - t.consecutive / 3
criticals-outage es t h k = omega (arith, criticals-run es t h k, consecutive_div es t k)
  where
    consecutive_div :
        (es : List Event) (t : AuditFailureTracker)
        → NoSuccess es
        → (run es t).0.consecutive / 3 ≡ (t.consecutive + failures es) / 3
    consecutive_div es t k = ap (λ n. n / 3) (consecutive-run es t k)

-- A successful write logs the recovery exactly when three or more writes in a row had failed, and
-- otherwise logs nothing. Afterwards no failure stands in a row and the alert flag is down.
pub record_success-recovers :
    (t : AuditFailureTracker)
    → IsConsistent t
    → (alert_threshold ≤ t.consecutive → (record_success t).1 ≡ recovered t.consecutive ∷ [])
      × (t.consecutive < alert_threshold → (record_success t).1 ≡ [])
      × ((record_success t).0.consecutive ≡ 0)
      × ((record_success t).0.alerted ≡ false)
unfolding record_success
record_success-recovers t h = ground arith
