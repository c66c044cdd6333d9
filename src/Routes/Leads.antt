-- ===== src/Routes/Leads.antt =====
-- app/api/routes/leads.py: the public form, and what attorneys and administrators do with leads. A
-- handler that stores or links a file also acts on the state of app/services/file_service.py.
pub mod Submitting
pub mod Working
pub mod Notifying
mod Tests
use alma_lead_management_ser.Common.{
  ℕ, ◌++◌, Bool, Option, none, some, List, [], ◌∷◌, if◌then◌else◌, Text, truthy, codes,
}
use alma_lead_management_ser.Results.{
  Result, ok, err, request_validation_error, Action, pure, lift, ◌>>=◌, ◌>>◌,
}
use alma_lead_management_ser.Models.{User, Lead, LeadState, AuditLog, state_value}
use alma_lead_management_ser.Engine.{Engine, Db}
use alma_lead_management_ser.Security.{Crypto, TokenSettings}
use alma_lead_management_ser.Schemas.{LeadCreateForm, parse_lead_form}
use alma_lead_management_ser.Storage.{StorageSettings}
use alma_lead_management_ser.Files.{UploadFile, Link, save_resume}
use alma_lead_management_ser.Files as FileService
use alma_lead_management_ser.Leads as Service
use alma_lead_management_ser.Dependencies.{get_current_user, require_admin}
use alma_lead_management_ser.Audit.Log as Log
use alma_lead_management_ser.Audit.Log.{get_lead_audit_logs, state_change}
use alma_lead_management_ser.Routes.{
  Shared, on_db, on_files, Moment, NewLead, Task, audit, notify, Handler, valid_body, valid_limit,
}

-- `resume.filename or "unknown"`
abbrev pub or_unknown : Option Text → Text
or_unknown none = codes "unknown"
or_unknown (some name) = if truthy name then name else codes "unknown"

-- The background tasks of `create_lead`, in their order.
abbrev pub new_lead_task : LeadCreateForm → Option Text → Task
new_lead_task form filename = notify (record {
  prospect_email = form.email;
  first_name = form.first_name;
  last_name = form.last_name;
  resume_filename = or_unknown filename;
})

abbrev pub creation_action : LeadCreateForm → (lead_id : ℕ) → Log.Action
creation_action form lead_id = record {
  entity_type = codes "lead";
  entity_id = lead_id;
  action = codes "lead_created";
  user_id = none;
  user_email = none;
  old_state = none;
  new_state = none;
  detail = some (
      codes "Lead submitted by "
      ++ (form.first_name
          ++ (codes " " ++ (form.last_name ++ (codes " (" ++ (form.email ++ codes ")"))))));
  lead_id = some lead_id;
}

module _ (E : Engine) (m : Moment) where
  unfoldable pub create_lead :
      (email_str : Text → Option Text)
      → StorageSettings
      → (max_upload_size_mb : ℕ) → (uuid : Text) → (first_name last_name email : Text) → UploadFile
      → Action (Shared E) (Lead × List Task)
  create_lead email_str settings mb uuid first_name last_name email resume = do
    form ← lift (valid_body (parse_lead_form email_str first_name last_name email))
    resume_path ← on_files (save_resume settings mb uuid m.now resume)
    lead ← on_db (
        Service.create_lead E m.fresh_id m.now form.first_name form.last_name form.email
          resume_path)
    pure (lead, new_lead_task form resume.filename ∷ audit (creation_action form lead.id) ∷ [])

module _ (E : Engine) (C : Crypto) (settings : TokenSettings) (m : Moment) (token : Text) where
  unfoldable pub list_leads : Option LeadState → (limit offset : ℕ) → Handler E (List Lead × ℕ)
  list_leads state limit offset = do
    user ← get_current_user E C settings m.now token
    lift (if valid_limit limit then ok tt else err request_validation_error)
    λ db. (ok (Service.list_leads E db state limit offset, []), db)

  unfoldable pub get_lead : ℕ → Handler E Lead
  get_lead lead_id = do
    user ← get_current_user E C settings m.now token
    lead ← Service.get_lead E lead_id
    pure (lead, [])

  unfoldable pub update_lead_state : ℕ → LeadState → Handler E Lead
  update_lead_state lead_id new_state = do
    user ← get_current_user E C settings m.now token
    lead ← Service.get_lead E lead_id
    updated_lead ← Service.update_lead_state E m.now lead_id new_state user
    pure (
      updated_lead,
      audit (
            state_change lead_id user.id user.email (state_value lead.state)
              (state_value new_state))
          ∷ [],
    )

  unfoldable pub get_resume_url : StorageSettings → ℕ → Action (Shared E) (Link × List Task)
  get_resume_url storage lead_id = do
    user ← on_db (get_current_user E C settings m.now token)
    lead ← on_db (Service.get_lead E lead_id)
    url ← on_files (FileService.get_resume_url storage lead.resume_path)
    pure (url, [])

  unfoldable pub get_lead_audit_log : ℕ → Handler E (List AuditLog)
  get_lead_audit_log lead_id = do
    admin ← require_admin E C settings m.now token
    lead ← Service.get_lead E lead_id
    λ db. (ok (get_lead_audit_logs E db lead_id, []), db)
