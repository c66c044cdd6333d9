-- ===== src/Routes/Leads/Submitting.antt =====
-- What a submitted form leads to.
use alma_lead_management_ser.Common.{
  ℕ, ◌≡◌, ap, ◌∙◌, Option, none, some, List, [], ◌∷◌, ◌==◌, if◌then◌else◌, Text, arith,
}
use alma_lead_management_ser.Results.{Result, ok, err, Error}
use alma_lead_management_ser.Models.{Lead, new_lead}
use alma_lead_management_ser.Engine.{Engine, IsEngine, Db}
use alma_lead_management_ser.Schemas.{LeadCreateForm, parse_lead_form}
use alma_lead_management_ser.Storage.{StorageSettings}
use alma_lead_management_ser.Files.{UploadFile, Files, save_resume}
use alma_lead_management_ser.Leads as Service
use alma_lead_management_ser.Routes.{Shared, Moment, Task, audit}
use alma_lead_management_ser.Routes.Leads.{create_lead, new_lead_task, creation_action}

module _ (E : Engine) (laws : IsEngine E) (m : Moment) (email_str : Text → Option Text)
    (settings : StorageSettings) (mb : ℕ) (uuid first_name last_name email : Text)
    (resume : UploadFile) (db : Db E) (files : Files) where
  abbrev answer : Result (Lead × List Task) × Shared E
  answer = create_lead E m email_str settings mb uuid first_name last_name email resume (db, files)

  insert_fresh :
      (l : Lead)
      → E.leads.get l.id db.leads ≡ none
      → (leads : E.leads.Store) × (E.leads.insert l db.leads ≡ some leads)
  insert_fresh l fresh =
      laws.leads.insert-some l db.leads (λ k q h. ground (arith, laws.leads.id-get k db.leads q h))

  -- A form that its schema accepts, with a resume that is stored and a fresh key, gives a new
  -- PENDING lead with the form's data and the stored reference. No other row changes, and two tasks
  -- are queued: the notification and the audit entry of the new lead.
  pub create_lead-creates :
      (form : LeadCreateForm) (path : Text) (files' : Files)
      → parse_lead_form email_str first_name last_name email ≡ some form
      → save_resume settings mb uuid m.now resume files ≡ (ok path, files')
      → E.leads.get m.fresh_id db.leads ≡ none
      → let l = new_lead m.fresh_id m.now form.first_name form.last_name form.email path in
        (answer.0
          ≡ ok (
            l,
            new_lead_task form resume.filename ∷ audit (creation_action form m.fresh_id) ∷ [],
          ))
        × ((k : ℕ)
            → E.leads.get k answer.1.0.leads
              ≡ (if k == m.fresh_id then some l else E.leads.get k db.leads))
        × (answer.1.0.users ≡ db.users)
        × (answer.1.0.audit_logs ≡ db.audit_logs)
        × (answer.1.1 ≡ files')
  unfolding create_lead Service.create_lead
  create_lead-creates form path files' parsed saved fresh =
      let l = new_lead m.fresh_id m.now form.first_name form.last_name form.email path in
      let (leads, e) = insert_fresh l fresh in
      let q : answer ≡ (
        ok (l, new_lead_task form resume.filename ∷ audit (creation_action form m.fresh_id) ∷ []),
        (record db { leads = leads }, files'),
      ) =
        ground (arith, saved, e) in
      (
        ap (λ (p : Result (Lead × List Task) × Shared E). p.0) q,
        (λ k.
            ap (λ (p : Result (Lead × List Task) × Shared E). E.leads.get k p.1.0.leads) q
            ∙ laws.leads.get-insert k l db.leads leads e),
        ap (λ (p : Result (Lead × List Task) × Shared E). p.1.0.users) q,
        ap (λ (p : Result (Lead × List Task) × Shared E). p.1.0.audit_logs) q,
        ap (λ (p : Result (Lead × List Task) × Shared E). p.1.1) q,
      )

  -- A submission that is refused, for its form, for its resume or by the database, leaves the
  -- database as it was.
  pub create_lead-refuses : (e : Error) → answer.0 ≡ err e → answer.1.0 ≡ db
  unfolding create_lead Service.create_lead
  create_lead-refuses e h = ground arith
