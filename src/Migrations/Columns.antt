-- ===== src/Migrations/Columns.antt =====
-- The columns and the policies that the revisions of alembic/versions create.
use alma_lead_management_ser.Common.{true, false, none, some, List, [], ◌∷◌, Text, codes}
use alma_lead_management_ser.Sql.{
  SqlType, uuid, text, boolean, timestamp_tz, string, enumeration, ForeignKey, Column,
  current_user_id, current_user_role, Uid, setting_uuid, nonempty_setting_uuid, Condition,
  constant_true, setting_equals, id_equals, is_active_true, role_equals, both, exists_user, for_all,
  for_select, for_insert, for_update, Policy,
}

-- `sa.Column(name, type, nullable=False)`
abbrev pub column : Text → SqlType → Column
column name sql_type = record {
  name = name;
  sql_type = sql_type;
  nullable = false;
  primary_key = false;
  unique = false;
  index = false;
  foreign_key = none;
  server_default = none;
}

-- `sa.ForeignKey("<table>.id", ondelete="SET NULL")`
abbrev pub references : Text → ForeignKey
references table = record { table = table; column = codes "id" }

abbrev pub users_columns : List Column
users_columns =
    record (column (codes "id") uuid) { primary_key = true }
    ∷ record (column (codes "email") (string 255)) { unique = true; index = true }
    ∷ column (codes "hashed_password") (string 255)
    ∷ record (column (codes "role")
        (enumeration (codes "userrole") (codes "ADMIN" ∷ codes "ATTORNEY" ∷ []))) {
          server_default = some (codes "ATTORNEY");
        }
    ∷ record (column (codes "is_active") boolean) { server_default = some (codes "true") }
    ∷ column (codes "created_at") timestamp_tz
    ∷ []

abbrev pub leads_columns : List Column
leads_columns =
    record (column (codes "id") uuid) { primary_key = true }
    ∷ column (codes "first_name") (string 100)
    ∷ column (codes "last_name") (string 100)
    ∷ column (codes "email") (string 255)
    ∷ column (codes "resume_path") text
    ∷ record (column (codes "state")
        (enumeration (codes "leadstate") (codes "PENDING" ∷ codes "REACHED_OUT" ∷ []))) {
          server_default = some (codes "PENDING");
        }
    ∷ column (codes "created_at") timestamp_tz
    ∷ column (codes "updated_at") timestamp_tz
    ∷ []

abbrev pub audit_logs_columns : List Column
audit_logs_columns =
    record (column (codes "id") uuid) { primary_key = true }
    ∷ record (column (codes "entity_type") (string 50)) { index = true }
    ∷ record (column (codes "entity_id") uuid) { index = true }
    ∷ record (column (codes "action") (string 50)) { index = true }
    ∷ record (column (codes "user_id") uuid) {
      nullable = true;
      index = true;
      foreign_key = some (references (codes "users"));
    }
    ∷ record (column (codes "user_email") (string 255)) { nullable = true }
    ∷ record (column (codes "old_state") (string 50)) { nullable = true }
    ∷ record (column (codes "new_state") (string 50)) { nullable = true }
    ∷ record (column (codes "detail") text) { nullable = true }
    ∷ record (column (codes "lead_id") uuid) {
      nullable = true;
      index = true;
      foreign_key = some (references (codes "leads"));
    }
    ∷ column (codes "created_at") timestamp_tz
    ∷ []

-- The conditions of revision 001 and of revision 006, for a way to read the current user.
abbrev pub active_user_exists : Uid → Condition
active_user_exists uid = exists_user (both (id_equals uid) is_active_true)

abbrev pub active_admin_exists : Uid → Condition
active_admin_exists uid =
    exists_user (both (id_equals uid) (both (role_equals (codes "ADMIN")) is_active_true))

abbrev pub own_active_row : Uid → Condition
own_active_row uid = both (id_equals uid) is_active_true

abbrev pub admin_setting : Condition
admin_setting = setting_equals current_user_role (codes "ADMIN")

abbrev pub uid_001 : Uid
uid_001 = setting_uuid current_user_id

-- `_UID_EXPR`
abbrev pub uid_006 : Uid
uid_006 = nonempty_setting_uuid current_user_id

abbrev pub leads_select : Uid → Policy
leads_select uid = record {
  name = codes "leads_active_users_select";
  command = for_select;
  using = some (active_user_exists uid);
  with_check = none;
}

abbrev pub leads_insert : Policy
leads_insert = record {
  name = codes "leads_active_users_insert";
  command = for_insert;
  using = none;
  with_check = some (constant_true);
}

abbrev pub leads_update : Uid → Policy
leads_update uid = record {
  name = codes "leads_active_users_update";
  command = for_update;
  using = some (active_user_exists uid);
  with_check = none;
}

abbrev pub users_admin_all : Condition → Policy
users_admin_all admin = record {
  name = codes "users_admin_all";
  command = for_all;
  using = some (admin);
  with_check = none;
}

abbrev pub users_self_select : Uid → Policy
users_self_select uid = record {
  name = codes "users_self_select";
  command = for_select;
  using = some (own_active_row uid);
  with_check = none;
}

abbrev pub audit_logs_admin_select : Condition → Policy
audit_logs_admin_select admin = record {
  name = codes "audit_logs_admin_select";
  command = for_select;
  using = some (admin);
  with_check = none;
}

abbrev pub audit_logs_insert : Policy
audit_logs_insert = record {
  name = codes "audit_logs_insert";
  command = for_insert;
  using = none;
  with_check = some (constant_true);
}

-- The policies that stand after revision 006.
abbrev pub users_policies : List Policy
users_policies = users_admin_all admin_setting ∷ users_self_select uid_006 ∷ []

abbrev pub leads_policies : List Policy
leads_policies = leads_insert ∷ leads_select uid_006 ∷ leads_update uid_006 ∷ []

abbrev pub audit_logs_policies : List Policy
audit_logs_policies = audit_logs_admin_select admin_setting ∷ audit_logs_insert ∷ []
