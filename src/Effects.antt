-- ===== src/Effects.antt =====
-- The committed transactions of the services as a step relation on the database. A history is any
-- sequence of them, in whatever order the requests and the background tasks of the service commit.
pub mod Services
pub mod Accounts
pub mod Leads
pub mod Trail
pub mod Running
mod Tests
use alma_lead_management_ser.Common.{ℕ, ◌≡◌, Option, some}
use alma_lead_management_ser.Models.{
  User, Lead, AuditLog, LeadState, pending, reached_out, new_lead,
}
use alma_lead_management_ser.Common.{Text}
use alma_lead_management_ser.Engine.{Engine, Db, delete_user_row}
use alma_lead_management_ser.Leads.{with_state}

module _ (E : Engine) where
  pub data Effect (db db' : Db E) : Type 0 where
    nothing : db' ≡ db → Effect db db'
    added_user :
        (u : User) (users : E.users.Store)
        → E.users.insert u db.users ≡ some users
        → db' ≡ record db { users = users }
        → Effect db db'
    -- `is_active` is assigned
    changed_user :
        (k : ℕ) (u v : User)
        → E.users.get k db.users ≡ some u
        → v.id ≡ u.id
        → v.email ≡ u.email
        → v.role ≡ u.role
        → db' ≡ record db { users = E.users.update v db.users }
        → Effect db db'
    removed_user : (k : ℕ) → db' ≡ delete_user_row E k db → Effect db db'
    added_lead :
        (id now : ℕ) (first_name last_name email resume_path : Text) (leads : E.leads.Store)
        → E.leads.insert (new_lead id now first_name last_name email resume_path) db.leads
          ≡ some leads
        → db' ≡ record db { leads = leads }
        → Effect db db'
    -- the state is assigned, and not from REACHED_OUT to PENDING
    moved_lead :
        (now k : ℕ) (s : LeadState) (user : User) (l : Lead)
        → E.leads.get k db.leads ≡ some l
        → (l.state ≡ reached_out → s ≡ reached_out)
        → db' ≡ record db { leads = E.leads.update (with_state now s user l) db.leads }
        → Effect db db'
    added_entry :
        (a : AuditLog) (logs : E.audit_logs.Store)
        → E.audit_logs.insert a db.audit_logs ≡ some logs
        → db' ≡ record db { audit_logs = logs }
        → Effect db db'

  pub data History (db : Db E) : Db E → Type 0 where
    here : History db db
    next : {db' db'' : Db E} → History db db' → Effect db' db'' → History db db''
