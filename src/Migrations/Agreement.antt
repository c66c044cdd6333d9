-- ===== src/Migrations/Agreement.antt =====
-- The migrated tables are those that app/models declares to SQLAlchemy.
use alma_lead_management_ser.Common.{
  ◌≡◌, refl, Bool, true, false, none, some, List, [], ◌∷◌, map, all, ◌||◌, Text, text_eq, codes,
  if◌then◌else◌,
}
use alma_lead_management_ser.Sql.{
  uuid, text, boolean, timestamp_tz, string, enumeration, Column, Policy,
}
use alma_lead_management_ser.Migrations.{Schema, SqlTable, SqlIndex, effect, set_granted}
use alma_lead_management_ser.Migrations.Columns.{
  column, references, users_policies, leads_policies, audit_logs_policies,
}
use alma_lead_management_ser.Migrations.Revisions.{
  revisions, upgrade_001, upgrade_002, upgrade_003, upgrade_004, upgrade_005, upgrade_006,
}
use alma_lead_management_ser.Migrations.Steps.{Fresh, effects}
use alma_lead_management_ser.Migrations.Chain.{at, upgrade_to, upgrade_to-at}

-- A declared table: its columns, and the indexes by their columns.
pub record Declared : Type 0 where
  pub name : Text
  pub columns : List Column
  pub indexes : List (List Text)

-- `User.__table__`
abbrev pub user_table : Declared
user_table = record {
  name = codes "users";
  columns =
      record (column (codes "id") uuid) { primary_key = true }
      ∷ record (column (codes "email") (string 255)) { unique = true; index = true }
      ∷ column (codes "hashed_password") (string 255)
      ∷ column (codes "role")
          (enumeration (codes "userrole") (codes "ADMIN" ∷ codes "ATTORNEY" ∷ []))
      ∷ record (column (codes "is_active") boolean) { server_default = some (codes "true") }
      ∷ column (codes "created_at") timestamp_tz
      ∷ [];
  indexes = (codes "email" ∷ []) ∷ [];
}

-- `Lead.__table__`
abbrev pub lead_table : Declared
lead_table = record {
  name = codes "leads";
  columns =
      record (column (codes "id") uuid) { primary_key = true }
      ∷ column (codes "first_name") (string 100)
      ∷ column (codes "last_name") (string 100)
      ∷ column (codes "email") (string 255)
      ∷ column (codes "resume_path") text
      ∷ record (column (codes "state")
          (enumeration (codes "leadstate") (codes "PENDING" ∷ codes "REACHED_OUT" ∷ []))) {
            index = true;
          }
      ∷ record (column (codes "created_at") timestamp_tz) { index = true }
      ∷ column (codes "updated_at") timestamp_tz
      ∷ record (column (codes "reached_out_at") timestamp_tz) { nullable = true }
      ∷ record (column (codes "reached_out_by_id") uuid) {
        nullable = true;
        foreign_key = some (references (codes "users"));
      }
      ∷ [];
  indexes = (codes "state" ∷ []) ∷ (codes "created_at" ∷ []) ∷ [];
}

-- `AuditLog.__table__`
abbrev pub audit_log_table : Declared
audit_log_table = record {
  name = codes "audit_logs";
  columns =
      record (column (codes "id") uuid) { primary_key = true }
      ∷ record (column (codes "entity_type") (string 50)) { index = true }
      ∷ record (column (codes "entity_id") uuid) { index = true }
      ∷ record (column (codes "action") (string 50)) { index = true }
      ∷ record (column (codes "user_id") uuid) {
        nullable = true;
        index = true;
        foreign_key = some (references (codes "users"));
      }
      ∷ record (column (codes "user_email") (string 255)) { nullable = true }
      ∷ record (column (codes "old_state") (string 50)) { nullable = true }
      ∷ record (column (codes "new_state") (string 50)) { nullable = true }
      ∷ record (column (codes "detail") text) { nullable = true }
      ∷ record (column (codes "lead_id") uuid) {
        nullable = true;
        index = true;
        foreign_key = some (references (codes "leads"));
      }
      ∷ record (column (codes "created_at") timestamp_tz) { index = true }
      ∷ [];
  indexes =
      (codes "entity_type" ∷ codes "created_at" ∷ [])
      ∷ (codes "entity_type" ∷ [])
      ∷ (codes "entity_id" ∷ [])
      ∷ (codes "action" ∷ [])
      ∷ (codes "user_id" ∷ [])
      ∷ (codes "lead_id" ∷ [])
      ∷ (codes "created_at" ∷ [])
      ∷ [];
}

-- What both sides must agree on: not the flag of an index that is declared on its column, nor a default
-- that only the database knows.
abbrev pub shape : Column → Column
shape c = record c { index = false; server_default = none }

abbrev pub columns_eq : List Text → List Text → Bool
columns_eq [] [] = true
columns_eq (x ∷ xs) (y ∷ ys) = if text_eq x y then columns_eq xs ys else false
columns_eq _ _ = false

abbrev pub has_columns_index : List Text → List SqlIndex → Bool
has_columns_index cs [] = false
has_columns_index cs (i ∷ is) = columns_eq cs i.columns || has_columns_index cs is

-- The table of the database has the declared name and columns, and an index for each declared one.
abbrev pub Implements : SqlTable → Declared → Type 0
Implements t d =
    (t.name ≡ d.name)
    × (map shape t.columns ≡ map shape d.columns)
    × (all (λ cs. has_columns_index cs t.indexes) d.indexes ≡ true)

-- Row-level security is on, for the owner of the table too, with these policies.
abbrev pub IsSecured : List Policy → SqlTable → Type 0
IsSecured policies t = (t.row_security ≡ true) × (t.forced ≡ true) × (t.policies ≡ policies)

-- Upgraded to the last revision, a database that had nothing of the service but the role alma_app has
-- the three tables
-- that the models declare, up to defaults of the server, with row-level security in force under
-- the policies of revision 006, before the tables that it had, on all of which the role alma_app
-- has its privileges.
pub upgrade_to-Implements :
    (s : Schema)
    → Fresh s
    → (d : Schema) × (users : SqlTable) × (leads : SqlTable) × (audit_logs : SqlTable) × (upgrade_to
          6 s
        ≡ some d)
      × (d.tables ≡ audit_logs ∷ leads ∷ users ∷ map (set_granted true) s.tables)
      × (Implements users user_table × IsSecured users_policies users)
      × (Implements leads lead_table × IsSecured leads_policies leads)
      × (Implements audit_logs audit_log_table × IsSecured audit_logs_policies audit_logs)
unfolding at revisions effects effect upgrade_001 upgrade_002 upgrade_003 upgrade_004 upgrade_005
    upgrade_006
upgrade_to-Implements s h = (
  at 6 s,
  _,
  _,
  _,
  upgrade_to-at 6 s h,
  refl,
  ((refl, refl, refl), (refl, refl, refl)),
  ((refl, refl, refl), (refl, refl, refl)),
  ((refl, refl, refl), (refl, refl, refl)),
)
