-- ===== src/Application/Recovery.antt =====
-- What the health check says while audit writes fail, and after.
use alma_lead_management_ser.Common.{
  if◌then◌else◌, false, ℕ, ◌+◌, ◌≤◌, ◌≡◌, ◌≢◌, ◌∙◌, refl, sym, subst, inl, Bool, true, none, List,
  [], ◌∷◌, All, length, arith,
}
use alma_lead_management_ser.Engine.{Engine, IsEngine, user_fk, lead_fk}
use alma_lead_management_ser.Audit.Tracker.{AuditFailureTracker, health, maybe_reset_window}
use alma_lead_management_ser.Audit.Log.{Action, Surroundings, Trail, record_action}
use alma_lead_management_ser.Audit.Log.Writes.{record_action-loses, record_action-saves}
use alma_lead_management_ser.Application.{health_check, health_route, answer_status}
use alma_lead_management_ser.Application.Health.{health_check_iff}

health_check_degraded :
    (db_ok : Bool) (now : ℕ) (t : AuditFailureTracker)
    → 3 ≤ t.consecutive
    → (health_check db_ok now t).1.status_code ≡ 503
unfolding health_check health maybe_reset_window
health_check_degraded db_ok now t h = ground arith

degraded_answer :
    (connects db_ok : Bool) (now : ℕ) (t : AuditFailureTracker)
    → (health_check db_ok now t).1.status_code ≡ 503
    → answer_status (health_route connects db_ok now t).1 ≡ (if connects then 503 else 500)
unfolding health_route
degraded_answer true db_ok now t h = h
degraded_answer false db_ok now t h = refl

module _ (E : Engine) where
  -- Audit tasks one after the other.
  abbrev pub write_all : List (Surroundings × Action) → Trail E → Trail E
  write_all [] t = t
  write_all ((env, a) ∷ writes) t = write_all writes (record_action E env a t).0

  -- Each of them meets a database that cannot be reached.
  abbrev pub Unreachable : List (Surroundings × Action) → Type 0
  Unreachable writes = All (λ w. w.0.fault ≢ none) writes

  write_all_counts :
      IsEngine E
      → (writes : List (Surroundings × Action)) (t : Trail E) → Unreachable writes
      → ((write_all writes t).tracker.consecutive ≡ t.tracker.consecutive + length writes)
        × ((write_all writes t).db ≡ t.db)
  write_all_counts laws [] t h = (omega arith, refl)
  write_all_counts laws ((env, a) ∷ writes) t (h, hs) =
      let (db, failed) = record_action-loses E laws env a t (inl h) in
      let (counted, kept) = write_all_counts laws writes (record_action E env a t).0 hs in
      (omega (arith, counted, failed), kept ∙ db)

  -- After three or more audit tasks in a row that could not reach the database, whatever came before
  -- them, the health check answers 503 if its own connection can be opened, and with the framework's
  -- 500 if not. The first task that goes through afterwards brings it back to 200 as long as the
  -- database can be reached and answers the check.
  pub health_check-recovers :
      IsEngine E
      → (writes : List (Surroundings × Action)) (t : Trail E) (connects db_ok : Bool)
        (now later : ℕ)
      → (env : Surroundings) (a : Action) → Unreachable writes
      → 3 ≤ length writes
      → env.fault ≡ none
      → user_fk E a.user_id t.db ≡ true
      → lead_fk E a.lead_id t.db ≡ true
      → E.audit_logs.get env.fresh_id t.db.audit_logs ≡ none
      → let outage = write_all writes t in
        let afterwards = (record_action E env a outage).0 in
        (answer_status (health_route connects db_ok now outage.tracker).1
          ≡ (if connects then 503 else 500))
        × (answer_status (health_route true true later afterwards.tracker).1 ≡ 200)
  unfolding health_route
  health_check-recovers laws writes t connects db_ok now later env a down three up users leads
        fresh =
      let (counted, kept) = write_all_counts laws writes t down in
      let outage = write_all writes t in
      let same = sym kept in
      let saved =
        record_action-saves E laws env a outage up
          (subst (λ db. user_fk E a.user_id db ≡ true) same users)
          (subst (λ db. lead_fk E a.lead_id db ≡ true) same leads)
          (subst (λ db. E.audit_logs.get env.fresh_id db.audit_logs ≡ none) same fresh) in
      (
        degraded_answer connects db_ok now outage.tracker
            (health_check_degraded db_ok now outage.tracker (omega (arith, counted))),
        (health_check_iff true later (record_action E env a outage).0.tracker).0.1
            (refl, omega (arith, saved.1)),
      )
