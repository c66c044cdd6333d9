-- ===== src/Audit/Log/Writes.antt =====
-- What `record_action` leaves in the table and in the failure tracker.
use alma_lead_management_ser.Common.{
  ℕ, zero, suc, ◌+◌, ◌<◌, length-take, ◌≤◌, ◌≡◌, ◌≢◌, refl, ◌⊎◌, inl, inr, true, false, Option,
  none, some, [], ◌∷◌, ◌==◌, Text, truthy, length, arith, Option-cases, if◌then◌else◌, take,
}
use alma_lead_management_ser.Models.{AuditLog}
use alma_lead_management_ser.Engine.{
  Engine, IsEngine, user_fk, lead_fk, audit_log_key, audit_log_clash,
}
use alma_lead_management_ser.Database.Laws.{get-insert_old}
use alma_lead_management_ser.Audit.Sanitize.{sanitize, strip_control_chars}
use alma_lead_management_ser.Audit.Sanitize.Laws.{sanitize-IsClean}
use alma_lead_management_ser.Audit.Tracker.{record_failure, record_success, maybe_reset_window}
use alma_lead_management_ser.Audit.Log.{
  Action, Surroundings, new_entry, Trail, record_action, or_text,
}

-- A nullable column of type `String(n)` holds the value.
abbrev pub Fits : ℕ → Option Text → Type 0
Fits n none = Unit
Fits n (some s) = length s ≤ n

-- The row fits the columns that app/models/audit_log.py declares.
pub record FitsColumns (a : AuditLog) : Type 0 where
  pub entity_type : length a.entity_type ≤ 50
  pub action : length a.action ≤ 50
  pub user_email : Fits 255 a.user_email
  pub old_state : Fits 50 a.old_state
  pub new_state : Fits 50 a.new_state
  pub detail : Fits 1000 a.detail

sanitize-Fits : (n : ℕ) (value : Option Text) → Fits n (sanitize n value)
sanitize-Fits n none = unfold sanitize in tt
sanitize-Fits n (some value) = let (s, e, clean) = sanitize-IsClean n value in rw e clean.1

truthy-take : (n : ℕ) (s : Text) → 0 < n → s ≢ [] → truthy (take n s) ≡ true
truthy-take zero s pos h = absurd (omega arith)
truthy-take (suc n) [] pos h = absurd (h refl)
truthy-take (suc n) (c ∷ s) pos h = refl

truthy-fits :
    (n : ℕ) (s fallback : Text)
    → truthy s ≡ true
    → length s ≤ n
    → length (if truthy s then s else fallback) ≤ n
truthy-fits n s fallback h fits = rw h fits

or_text-fits :
    (n : ℕ) (value fallback : Text)
    → 0 < n
    → strip_control_chars value ≢ []
    → length (or_text (sanitize n (some value)) fallback) ≤ n
unfolding sanitize
or_text-fits n value fallback pos h =
    truthy-fits n (take n (strip_control_chars value)) fallback
      (truthy-take n (strip_control_chars value) pos h)
      (omega (arith, length-take n (strip_control_chars value)))

-- Every row that `record_action` builds fits its columns, if the entity type and the action have a
-- printable character: text without one is stored as it came.
pub new_entry-FitsColumns :
    (env : Surroundings) (a : Action)
    → strip_control_chars a.entity_type ≢ []
    → strip_control_chars a.action ≢ []
    → FitsColumns (new_entry env a)
unfolding new_entry
new_entry-FitsColumns env a h k = record {
  entity_type = or_text-fits 50 a.entity_type a.entity_type (omega arith) h;
  action = or_text-fits 50 a.action a.action (omega arith) k;
  user_email = sanitize-Fits 255 a.user_email;
  old_state = sanitize-Fits 50 a.old_state;
  new_state = sanitize-Fits 50 a.new_state;
  detail = sanitize-Fits 1000 a.detail;
}

same_key : (a b : AuditLog) → audit_log_key a ≡ audit_log_key b → audit_log_clash a b ≡ true
same_key a b e = ground arith

module _ (E : Engine) (laws : IsEngine E) where
  no_clash :
      (env : Surroundings) (a : Action) (t : Trail E)
      → E.audit_logs.get env.fresh_id t.db.audit_logs ≡ none
      → (k : ℕ) (q : AuditLog) → E.audit_logs.get k t.db.audit_logs ≡ some q
      → audit_log_clash (new_entry env a) q ≡ false
  unfolding new_entry
  no_clash env a t fresh k q h = ground (arith, laws.audit_logs.id-get k t.db.audit_logs q h)

  -- If the database can be reached, the rows that the entry names exist and its key is fresh, then
  -- the sanitised entry is stored under its key, every other entry stays as it was, and no failure
  -- stands in a row any more.
  pub record_action-saves :
      (env : Surroundings) (a : Action) (t : Trail E)
      → env.fault ≡ none
      → user_fk E a.user_id t.db ≡ true
      → lead_fk E a.lead_id t.db ≡ true
      → E.audit_logs.get env.fresh_id t.db.audit_logs ≡ none
      → let t' = (record_action E env a t).0 in
        ((k : ℕ)
          → E.audit_logs.get k t'.db.audit_logs ≡ (
              if k == env.fresh_id
              then some (new_entry env a)
              else E.audit_logs.get k t.db.audit_logs))
        × (t'.tracker.consecutive ≡ 0)
  unfolding record_action record_success
  record_action-saves env a t up users leads fresh =
      let entry = new_entry env a in
      let (logs, e) = laws.audit_logs.insert-some entry t.db.audit_logs (no_clash env a t fresh) in
      (
        λ k. ground (arith, e, laws.audit_logs.get-insert k entry t.db.audit_logs logs e),
        ground (arith, e),
      )

  -- If the database cannot be reached, or a row that the entry names is gone, the entry is lost: the
  -- database stays as it was, one more failure stands in a row, and no exception comes out.
  pub record_action-loses :
      (env : Surroundings) (a : Action) (t : Trail E)
      → (env.fault ≢ none) ⊎ (user_fk E a.user_id t.db ≡ false) ⊎ (lead_fk E a.lead_id t.db ≡ false)
      → let t' = (record_action E env a t).0 in
        (t'.db ≡ t.db) × (t'.tracker.consecutive ≡ t.tracker.consecutive + 1)
  unfolding record_action record_failure maybe_reset_window
  record_action-loses env a t h = ground arith

  -- The trail only grows: whatever a call of `record_action` meets, no entry is changed or removed.
  pub record_action-keeps :
      (env : Surroundings) (a : Action) (t : Trail E) (k : ℕ) (entry : AuditLog)
      → E.audit_logs.get k t.db.audit_logs ≡ some entry
      → E.audit_logs.get k (record_action E env a t).0.db.audit_logs ≡ some entry
  unfolding record_action
  record_action-keeps env a t k entry h =
      elim (Option-cases (E.audit_logs.insert (new_entry env a) t.db.audit_logs)) [
        | inl e ↦ ground arith
        | inr (logs, e) ↦ ground (
          arith,
          get-insert_old E.audit_logs laws.audit_logs same_key k (new_entry env a) entry
              t.db.audit_logs logs e h,
        )
      ]
