-- ===== src/Engine.antt =====
-- The three tables of the service as one database, with the constraints of the models: the primary
-- keys and the unique column `email` (app/models/user.py, app/models/lead.py,
-- app/models/audit_log.py), and the foreign keys with `ondelete="SET NULL"`.
pub mod Memory
pub mod Fixtures
use alma_lead_management_ser.Common.{
  ℕ, ◌≡◌, Bool, true, false, ◌&&◌, ◌||◌, Option, none, some, ◌==◌, if◌then◌else◌, text_eq,
}
use alma_lead_management_ser.Models.{User, Lead, AuditLog}
use alma_lead_management_ser.Database.{Table, IsTable}

abbrev pub user_key : User → ℕ
user_key u = u.id

abbrev pub lead_key : Lead → ℕ
lead_key l = l.id

abbrev pub audit_log_key : AuditLog → ℕ
audit_log_key a = a.id

-- `primary_key=True` on `id` and `unique=True` on `email`.
abbrev pub user_clash : User → User → Bool
user_clash u v = (u.id == v.id) || text_eq u.email v.email

abbrev pub lead_clash : Lead → Lead → Bool
lead_clash l m = l.id == m.id

abbrev pub audit_log_clash : AuditLog → AuditLog → Bool
audit_log_clash a b = a.id == b.id

pub record Engine : Type 1 where
  pub users : Table user_key
  pub leads : Table lead_key
  pub audit_logs : Table audit_log_key

pub record IsEngine (E : Engine) : Type 0 where
  pub users : IsTable E.users user_clash
  pub leads : IsTable E.leads lead_clash
  pub audit_logs : IsTable E.audit_logs audit_log_clash

pub record Db (E : Engine) : Type 0 where
  pub users : E.users.Store
  pub leads : E.leads.Store
  pub audit_logs : E.audit_logs.Store

-- A nullable foreign key is satisfied by NULL, and by the key of a row.
abbrev pub is_some {ℓ} : {A : Type ℓ} → Option A → Bool
is_some none = false
is_some (some a) = true

module _ (E : Engine) where
  abbrev pub user_fk : Option ℕ → Db E → Bool
  user_fk none db = true
  user_fk (some k) db = is_some (E.users.get k db.users)

  abbrev pub lead_fk : Option ℕ → Db E → Bool
  lead_fk none db = true
  lead_fk (some k) db = is_some (E.leads.get k db.leads)

-- `ondelete="SET NULL"` on one column.
abbrev pub set_null : ℕ → Option ℕ → Option ℕ
set_null k none = none
set_null k (some j) = if j == k then none else some j

abbrev pub forget_reached_out_by : ℕ → Lead → Lead
forget_reached_out_by k l = record l { reached_out_by_id = set_null k l.reached_out_by_id }

abbrev pub forget_user : ℕ → AuditLog → AuditLog
forget_user k a = record a { user_id = set_null k a.user_id }

-- `session.delete(user)` and `commit`: the row, and the foreign keys that name it.
unfoldable pub delete_user_row : (E : Engine) → ℕ → Db E → Db E
delete_user_row E k db = record {
  users = E.users.delete k db.users;
  leads = E.leads.update_all (forget_reached_out_by k) db.leads;
  audit_logs = E.audit_logs.update_all (forget_user k) db.audit_logs;
}
