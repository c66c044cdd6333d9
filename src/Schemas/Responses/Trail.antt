-- ===== src/Schemas/Responses/Trail.antt =====
-- From a state change of app/services/audit_service.py to what the audit routes answer.
use alma_lead_management_ser.Common.{ℕ, ◌≡◌, refl, Option, none, some, Text, codes}
use alma_lead_management_ser.Models.{LeadState, pending, reached_out, state_value}
use alma_lead_management_ser.Audit.Sanitize.{sanitize, is_control_char}
use alma_lead_management_ser.Audit.Log.{Surroundings, new_entry, state_change}
use alma_lead_management_ser.Schemas.Responses.{
  LeadStateUpdate, parse_state_update, audit_log_response,
}

-- A state that is shown in an answer, read back.
abbrev pub read_state : Option Text → Option LeadStateUpdate
read_state none = none
read_state (some state) = parse_state_update state

-- The entry that a state change leaves shows both states in a form that reads back as them, with the
-- key of the lead and of the user.
pub audit_log_response-state_change :
    (env : Surroundings) (lead_id user_id : ℕ) (user_email : Text) (old new : LeadState)
    → let r = audit_log_response (
        new_entry env
          (state_change lead_id user_id user_email (state_value old) (state_value new))) in
      (read_state r.old_state ≡ some (record { state = old }))
      × (read_state r.new_state ≡ some (record { state = new }))
      × (r.action ≡ codes "state_change")
      × (r.lead_id ≡ some lead_id)
      × (r.user_id ≡ some user_id)
unfolding audit_log_response new_entry state_change sanitize is_control_char parse_state_update
audit_log_response-state_change env lead_id user_id user_email pending pending =
    (refl, refl, refl, refl, refl)
audit_log_response-state_change env lead_id user_id user_email pending reached_out =
    (refl, refl, refl, refl, refl)
audit_log_response-state_change env lead_id user_id user_email reached_out pending =
    (refl, refl, refl, refl, refl)
audit_log_response-state_change env lead_id user_id user_email reached_out reached_out =
    (refl, refl, refl, refl, refl)
