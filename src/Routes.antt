-- ===== src/Routes.antt =====
-- The handlers of app/api/routes. A handler is an action on the database that also returns the
-- background tasks that it has queued; a handler that raises queues none.
pub mod Admin
pub mod Leads
pub mod Auth
use alma_lead_management_ser.Common.{ℕ, Bool, ◌&&◌, leb, Option, none, some, List, Text}
use alma_lead_management_ser.Results.{Result, ok, err, request_validation_error, Action}
use alma_lead_management_ser.Engine.{Engine, Db}
use alma_lead_management_ser.Security.{TokenSettings}
use alma_lead_management_ser.Files.{Files}
use alma_lead_management_ser.Audit.Log as Log

-- What one request meets: the time, the key of a row that it adds, and a bcrypt salt.
pub record Moment : Type 0 where
  pub now : ℕ
  pub fresh_id : ℕ
  pub salt : Text

-- The arguments of `_notify_new_lead`.
pub record NewLead : Type 0 where
  pub prospect_email : Text
  pub first_name : Text
  pub last_name : Text
  pub resume_filename : Text

-- A call of `background_tasks.add_task`.
pub data Task : Type 0 where
  audit : Log.Action → Task
  notify : NewLead → Task

abbrev pub Handler : Engine → Type 0 → Type 0
Handler E A = Action (Db E) (A × List Task)

-- The body of a request, after its schema.
abbrev pub valid_body {ℓ} : {A : Type ℓ} → Option A → Result A
valid_body none = err request_validation_error
valid_body (some a) = ok a

-- `limit: int = Query(50, ge=1, le=200)`
abbrev pub valid_limit : ℕ → Bool
valid_limit limit = leb 1 limit && leb limit 200

-- The database, and the module state of the file service.
abbrev pub Shared : Engine → Type 0
Shared E = Db E × Files

module _ {E : Engine} {A : Type 0} where
  abbrev pub on_db : Action (Db E) A → Action (Shared E) A
  on_db m (db, files) = let (r, db') = m db in (r, (db', files))

  abbrev pub on_files : Action Files A → Action (Shared E) A
  on_files m (db, files) = let (r, files') = m files in (r, (db, files'))
