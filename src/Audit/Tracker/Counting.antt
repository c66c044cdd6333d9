-- ===== src/Audit/Tracker/Counting.antt =====
-- What the counters of the failure tracker count, over any history of calls.
use alma_lead_management_ser.Common.{
  ℕ, ◌+◌, ◌<◌, ◌≡◌, refl, ◌↔◌, true, List, [], ◌∷◌, ◌++◌, arith, ap, ◌∙◌,
}
use alma_lead_management_ser.Audit.Tracker.{
  AuditFailureTracker, Event, failure, success, health_check, run, step, health, maybe_reset_window,
}

-- The failures of a history.
abbrev pub failures : List Event → ℕ
failures [] = 0
failures (failure now wall e ∷ es) = failures es + 1
failures (success ∷ es) = failures es
failures (health_check now ∷ es) = failures es

-- No write of the history succeeds.
abbrev pub NoSuccess : List Event → Type 0
NoSuccess [] = Unit
NoSuccess (success ∷ es) = ⊥
NoSuccess (failure now wall e ∷ es) = NoSuccess es
NoSuccess (health_check now ∷ es) = NoSuccess es

pub run-append :
    (es fs : List Event) (t : AuditFailureTracker) → (run (es ++ fs) t).0 ≡ (run fs (run es t).0).0
unfolding run
run-append [] fs t = refl
run-append (e ∷ es) fs t = run-append es fs (step e t).0

consecutive-step :
    (e : Event) (t : AuditFailureTracker)
    → NoSuccess (e ∷ [])
    → (step e t).0.consecutive ≡ t.consecutive + failures (e ∷ [])
unfolding step
consecutive-step (failure now wall e) t h = ground arith
consecutive-step success t h = absurd h
consecutive-step (health_check now) t h = ground arith

pub consecutive-run :
    (es : List Event) (t : AuditFailureTracker)
    → NoSuccess es
    → (run es t).0.consecutive ≡ t.consecutive + failures es
unfolding run
consecutive-run [] t h = omega arith
consecutive-run (failure now wall e ∷ es) t h = omega (
  arith,
  consecutive-step (failure now wall e) t tt,
  consecutive-run es (step (failure now wall e) t).0 h,
)
consecutive-run (success ∷ es) t h = absurd h
consecutive-run (health_check now ∷ es) t h = omega (
  arith,
  consecutive-step (health_check now) t tt,
  consecutive-run es (step (health_check now) t).0 h,
)

consecutive-success_run :
    (after : List Event) (t : AuditFailureTracker)
    → NoSuccess after
    → (run (success ∷ after) t).0.consecutive ≡ failures after
unfolding run step
consecutive-success_run after t h = omega (arith, consecutive-run after (step success t).0 h)

consecutive_at_health :
    (es : List Event) (t : AuditFailureTracker) (now : ℕ)
    → (maybe_reset_window now (run es t).0).consecutive ≡ (run es t).0.consecutive
unfolding maybe_reset_window
consecutive_at_health es t now = ground arith

consecutive-after_success :
    (before after : List Event) (t : AuditFailureTracker)
    → NoSuccess after
    → (run (before ++ success ∷ after) t).0.consecutive ≡ failures after
consecutive-after_success before after t h =
    ap (λ (u : AuditFailureTracker). u.consecutive) (run-append before (success ∷ after) t)
    ∙ consecutive-success_run after (run before t).0 h

-- After any history that ends in a success followed by writes of which none succeeds, the tracker
-- reports exactly the failures since that success, and is healthy exactly when they are fewer than
-- three, whatever the tracker was at the start and whenever health is asked.
pub health-run :
    (before after : List Event) (t : AuditFailureTracker) (now : ℕ)
    → NoSuccess after
    → let report = (health now (run (before ++ success ∷ after) t).0).1 in
      (report.consecutive_failures ≡ failures after)
      × ((report.healthy ≡ true) ↔ (failures after < 3))
unfolding health
health-run before after t now h =
    let same = consecutive_at_health (before ++ success ∷ after) t now in
    let known = consecutive-after_success before after t h in ground arith
