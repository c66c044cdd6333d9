-- ===== src/Audit/Tracker/Window.antt =====
-- The window of the failure tracker.
use alma_lead_management_ser.Common.{ℕ, ◌+◌, ◌≤◌, ◌<◌, ◌≡◌, subst, sym, List, [], ◌∷◌, arith}
use alma_lead_management_ser.Audit.Tracker.{
  AuditFailureTracker, Event, failure, success, health_check, PyError, maybe_reset_window,
  record_failure, run, step, window_seconds,
}
use alma_lead_management_ser.Audit.Tracker.Counting.{failures}

-- The clock of each event that reads it is at least `from`, and below `until`.
abbrev pub Within : ℕ → ℕ → List Event → Type 0
Within from until [] = Unit
Within from until (failure now wall e ∷ es) = (from ≤ now) × (now < until) × Within from until es
Within from until (success ∷ es) = Within from until es
Within from until (health_check now ∷ es) = (from ≤ now) × (now < until) × Within from until es

window-step :
    (e : Event) (t : AuditFailureTracker)
    → Within t.window_start (t.window_start + window_seconds) (e ∷ [])
    → ((step e t).0.window_failures ≡ t.window_failures + failures (e ∷ []))
      × ((step e t).0.window_start ≡ t.window_start)
unfolding step maybe_reset_window
window-step (failure now wall e) t h = ground arith
window-step success t h = ground arith
window-step (health_check now) t h = ground arith

-- While the clock stays within 300 seconds of the start of the window, the window counts every
-- failure, and successes do not take any away.
pub window-run :
    (es : List Event) (t : AuditFailureTracker)
    → Within t.window_start (t.window_start + window_seconds) es
    → (run es t).0.window_failures ≡ t.window_failures + failures es
unfolding run
window-run [] t h = omega arith
window-run (failure now wall e ∷ es) t h =
    let (counted, kept) = window-step (failure now wall e) t (h.0, h.1, tt) in
    omega (
      arith,
      window-run es (step (failure now wall e) t).0
          (subst (λ s. Within s (s + window_seconds) es) (sym kept) h.2),
    )
window-run (success ∷ es) t h =
    let (counted, kept) = window-step success t tt in
    omega (
      arith,
      window-run es (step success t).0 (subst (λ s. Within s (s + window_seconds) es) (sym kept) h),
    )
window-run (health_check now ∷ es) t h =
    let (counted, kept) = window-step (health_check now) t (h.0, h.1, tt) in
    omega (
      arith,
      window-run es (step (health_check now) t).0
          (subst (λ s. Within s (s + window_seconds) es) (sym kept) h.2),
    )

-- The window is not a rolling one: of two failures, the first at any time within the window and the
-- second at any time after it has ended, only the second is counted, however close they are.
pub window-drops_recent :
    (t : AuditFailureTracker) (first second wall wall' : ℕ) (e e' : PyError)
    → first < t.window_start + window_seconds
    → t.window_start + window_seconds ≤ second
    → (record_failure second wall' e' (record_failure first wall e t).0).0.window_failures ≡ 1
unfolding record_failure maybe_reset_window
window-drops_recent t first second wall wall' e e' h k = ground arith
