-- ===== src/Routes/Leads/Tests.antt =====
-- A submission to the office of the fixtures, and Bob's work on a lead.
use alma_lead_management_ser.Common.{
  ℕ, ◌≡◌, refl, true, none, some, [], ◌∷◌, ◌==◌, if◌then◌else◌, codes,
}
use alma_lead_management_ser.Results.{ok, err}
use alma_lead_management_ser.Models.{new_lead, pending, reached_out, state_value}
use alma_lead_management_ser.Engine.Memory.{memory_engine, memory_engine-IsEngine}
use alma_lead_management_ser.Engine.Fixtures.{office, bob, fresh_lead}
use alma_lead_management_ser.Security.{create_access_token, decode_access_token}
use alma_lead_management_ser.Security.Memory.{memory_crypto}
use alma_lead_management_ser.Schemas.{
  parse_lead_form, strip_whitespace, lstrip, rstrip, is_space, LeadCreateForm,
}
use alma_lead_management_ser.Storage.{
  StorageSettings, build_key, local_save, get_storage_backend, local,
}
use alma_lead_management_ser.Storage.Paths.{
  suffix, name, split_on, from_last_dot, name_suffix, path_text,
}
use alma_lead_management_ser.Files.{
  UploadFile, Files, pdf_type, save_resume, get_backend, read_chunks, detect_mime_from_magic,
  type_not_allowed,
}
use alma_lead_management_ser.Dependencies.{get_current_user}
use alma_lead_management_ser.Audit.Log.{state_change, record_action, Surroundings, new_entry}
use alma_lead_management_ser.Audit.Tracker.{new_tracker}
use alma_lead_management_ser.Leads.{with_state}
use alma_lead_management_ser.Routes.{Moment, audit}
use alma_lead_management_ser.Routes.Leads.{
  create_lead, new_lead_task, creation_action, update_lead_state,
}
use alma_lead_management_ser.Routes.Leads.Submitting.{create_lead-creates}
use alma_lead_management_ser.Dependencies.Fixtures.{an_hour, bobs_token}
use alma_lead_management_ser.Routes.Leads.Working.{update_lead_state-leaves_entry}

abbrev moment : Moment
moment = record { now = 1100; fresh_id = 13; salt = codes "s:" }

abbrev here : StorageSettings
here = record {
  storage_backend = codes "local";
  upload_dir = codes "up";
  s3_bucket = [];
  s3_prefix = codes "resumes";
  s3_region = [];
  s3_endpoint_url = [];
}

abbrev empty : Files
empty = record { backend = none; directory = none; requests = []; refusal = none }

abbrev stored : Files
stored = record {
  backend = some (local (codes "up"));
  directory = some (
      record { name = codes "u1.pdf"; is_file = true; contents = codes "%PDF-1"; mtime = 1100 }
      ∷ []);
  requests = [];
  refusal = none;
}

abbrev cv : UploadFile
cv = record {
  filename = some (codes "cv.pdf");
  content_type = some pdf_type;
  reads = codes "%PDF-1" ∷ [];
}

abbrev poem : UploadFile
poem = record cv { content_type = some (codes "text/plain") }

abbrev form : LeadCreateForm
form = record { first_name = codes "Ann"; last_name = codes "Lee"; email = codes "ann@x.org" }

form-parsed :
    parse_lead_form (λ e. some e) (codes " Ann") (codes "Lee") (codes "ann@x.org") ≡ some form
unfolding parse_lead_form strip_whitespace lstrip rstrip is_space
form-parsed = refl

cv-saved : save_resume here 1 (codes "u1") 1100 cv empty ≡ (ok (codes "up/u1.pdf"), stored)
unfolding save_resume get_backend get_storage_backend read_chunks detect_mime_from_magic build_key
    suffix name split_on from_last_dot name_suffix local_save path_text
cv-saved = refl

create_lead-creates_example :
    let (r, (db', files')) =
      create_lead memory_engine moment
        (λ e. some e)
        here
        1
        (codes "u1")
        (codes " Ann")
        (codes "Lee")
        (codes "ann@x.org")
        cv
        (office, empty) in
    let l = new_lead 13 1100 (codes "Ann") (codes "Lee") (codes "ann@x.org") (codes "up/u1.pdf") in
    (r ≡ ok (l, new_lead_task form cv.filename ∷ audit (creation_action form 13) ∷ []))
    × ((k : ℕ)
        → memory_engine.leads.get k db'.leads
          ≡ (if k == 13 then some l else memory_engine.leads.get k office.leads))
    × (db'.users ≡ office.users)
    × (db'.audit_logs ≡ office.audit_logs)
    × (files' ≡ stored)
create_lead-creates_example =
    create_lead-creates memory_engine memory_engine-IsEngine moment (λ e. some e) here 1
      (codes "u1") (codes " Ann") (codes "Lee") (codes "ann@x.org") cv office empty form
      (codes "up/u1.pdf") stored form-parsed cv-saved refl

poem-refused :
    (create_lead memory_engine moment
      (λ e. some e)
      here
      1
      (codes "u1")
      (codes " Ann")
      (codes "Lee")
      (codes "ann@x.org")
      poem
      (office, empty)).0
    ≡ err type_not_allowed
unfolding create_lead save_resume parse_lead_form strip_whitespace lstrip rstrip is_space
poem-refused = refl

current-bob :
    (get_current_user memory_engine memory_crypto an_hour 1100 bobs_token office).0 ≡ ok bob
unfolding get_current_user create_access_token decode_access_token
current-bob = refl

abbrev calm : Surroundings
calm = record {
  fresh_id = 30;
  now = 1101;
  monotonic = 5;
  wall = 1101;
  fault = none;
  violation = record { type_name = codes "IntegrityError"; message = [] };
}

update_lead_state-leaves_entry_example :
    let (r, db') =
      update_lead_state memory_engine memory_crypto an_hour moment bobs_token 10 reached_out
        office in
    let entry =
      state_change 10 2 (codes "bob@alma.com") (state_value pending) (state_value reached_out) in
    let t' =
      (record_action memory_engine calm entry (record { db = db'; tracker = new_tracker 0 })).0 in
    (r ≡ ok (with_state 1100 reached_out bob fresh_lead, audit entry ∷ []))
    × (memory_engine.audit_logs.get 30 t'.db.audit_logs ≡ some (new_entry calm entry))
update_lead_state-leaves_entry_example =
    update_lead_state-leaves_entry memory_engine memory_engine-IsEngine memory_crypto an_hour moment
      bobs_token office bob fresh_lead 10 calm (new_tracker 0) current-bob refl refl refl
