-- ===== src/Migrations/Revisions.antt =====
-- The six revisions of alembic/versions: their operations in order.
use alma_lead_management_ser.Common.{true, false, Option, none, some, List, [], ◌∷◌, Text, codes}
use alma_lead_management_ser.Sql.{uuid, timestamp_tz}
use alma_lead_management_ser.Migrations.{
  Op, create_table, drop_table, add_column, drop_column, create_index, drop_index, drop_enum,
  create_policy, drop_policy, row_security, force_row_security, grant_tables, grant_sequences,
}
use alma_lead_management_ser.Migrations.Columns.{
  column, references, users_columns, leads_columns, audit_logs_columns, active_admin_exists,
  admin_setting, uid_001, uid_006, leads_select, leads_insert, leads_update, users_admin_all,
  users_self_select, audit_logs_admin_select, audit_logs_insert,
}

unfoldable pub upgrade_001 : List Op
upgrade_001 =
    create_table (codes "users") users_columns
    ∷ create_table (codes "leads") leads_columns
    ∷ create_table (codes "audit_logs") audit_logs_columns
    ∷ row_security (codes "leads") true
    ∷ force_row_security (codes "leads") true
    ∷ create_policy (codes "leads") (leads_select uid_001)
    ∷ create_policy (codes "leads") leads_insert
    ∷ create_policy (codes "leads") (leads_update uid_001)
    ∷ row_security (codes "users") true
    ∷ force_row_security (codes "users") true
    ∷ create_policy (codes "users") (users_admin_all (active_admin_exists uid_001))
    ∷ create_policy (codes "users") (users_self_select uid_001)
    ∷ []

unfoldable pub downgrade_001 : List Op
downgrade_001 =
    drop_policy (codes "users_self_select") (codes "users")
    ∷ drop_policy (codes "users_admin_all") (codes "users")
    ∷ row_security (codes "users") false
    ∷ drop_policy (codes "leads_active_users_update") (codes "leads")
    ∷ drop_policy (codes "leads_active_users_insert") (codes "leads")
    ∷ drop_policy (codes "leads_active_users_select") (codes "leads")
    ∷ row_security (codes "leads") false
    ∷ drop_table (codes "audit_logs")
    ∷ drop_table (codes "leads")
    ∷ drop_table (codes "users")
    ∷ drop_enum (codes "leadstate")
    ∷ drop_enum (codes "userrole")
    ∷ []

unfoldable pub upgrade_002 : List Op
upgrade_002 =
    add_column (codes "leads")
      (record (column (codes "reached_out_at") timestamp_tz) { nullable = true })
    ∷ add_column (codes "leads") (record (column (codes "reached_out_by_id") uuid) {
      nullable = true;
      foreign_key = some (references (codes "users"));
    })
    ∷ create_index (codes "ix_leads_reached_out_by_id") (codes "leads")
        (codes "reached_out_by_id" ∷ [])
    ∷ []

unfoldable pub downgrade_002 : List Op
downgrade_002 =
    drop_index (codes "ix_leads_reached_out_by_id") (codes "leads")
    ∷ drop_column (codes "leads") (codes "reached_out_by_id")
    ∷ drop_column (codes "leads") (codes "reached_out_at")
    ∷ []

unfoldable pub upgrade_003 : List Op
upgrade_003 =
    create_index (codes "ix_leads_created_at") (codes "leads") (codes "created_at" ∷ [])
    ∷ create_index (codes "ix_leads_state") (codes "leads") (codes "state" ∷ [])
    ∷ create_index (codes "ix_audit_logs_created_at") (codes "audit_logs") (codes "created_at" ∷ [])
    ∷ create_index (codes "ix_audit_logs_entity_type_created_at") (codes "audit_logs")
        (codes "entity_type" ∷ codes "created_at" ∷ [])
    ∷ []

unfoldable pub downgrade_003 : List Op
downgrade_003 =
    drop_index (codes "ix_audit_logs_entity_type_created_at") (codes "audit_logs")
    ∷ drop_index (codes "ix_audit_logs_created_at") (codes "audit_logs")
    ∷ drop_index (codes "ix_leads_state") (codes "leads")
    ∷ drop_index (codes "ix_leads_created_at") (codes "leads")
    ∷ []

unfoldable pub upgrade_004 : List Op
upgrade_004 = grant_tables true ∷ grant_sequences true ∷ []

unfoldable pub downgrade_004 : List Op
downgrade_004 = grant_tables false ∷ grant_sequences false ∷ []

unfoldable pub upgrade_005 : List Op
upgrade_005 =
    row_security (codes "audit_logs") true
    ∷ force_row_security (codes "audit_logs") true
    ∷ create_policy (codes "audit_logs") (audit_logs_admin_select (active_admin_exists uid_001))
    ∷ create_policy (codes "audit_logs") audit_logs_insert
    ∷ []

unfoldable pub downgrade_005 : List Op
downgrade_005 =
    drop_policy (codes "audit_logs_insert") (codes "audit_logs")
    ∷ drop_policy (codes "audit_logs_admin_select") (codes "audit_logs")
    ∷ row_security (codes "audit_logs") false
    ∷ force_row_security (codes "audit_logs") false
    ∷ []

unfoldable pub upgrade_006 : List Op
upgrade_006 =
    drop_policy (codes "users_admin_all") (codes "users")
    ∷ create_policy (codes "users") (users_admin_all admin_setting)
    ∷ drop_policy (codes "users_self_select") (codes "users")
    ∷ create_policy (codes "users") (users_self_select uid_006)
    ∷ drop_policy (codes "leads_active_users_select") (codes "leads")
    ∷ create_policy (codes "leads") (leads_select uid_006)
    ∷ drop_policy (codes "leads_active_users_update") (codes "leads")
    ∷ create_policy (codes "leads") (leads_update uid_006)
    ∷ drop_policy (codes "audit_logs_admin_select") (codes "audit_logs")
    ∷ create_policy (codes "audit_logs") (audit_logs_admin_select admin_setting)
    ∷ []

unfoldable pub downgrade_006 : List Op
downgrade_006 =
    drop_policy (codes "audit_logs_admin_select") (codes "audit_logs")
    ∷ create_policy (codes "audit_logs") (audit_logs_admin_select (active_admin_exists uid_001))
    ∷ drop_policy (codes "leads_active_users_update") (codes "leads")
    ∷ create_policy (codes "leads") (leads_update uid_001)
    ∷ drop_policy (codes "leads_active_users_select") (codes "leads")
    ∷ create_policy (codes "leads") (leads_select uid_001)
    ∷ drop_policy (codes "users_self_select") (codes "users")
    ∷ create_policy (codes "users") (users_self_select uid_001)
    ∷ drop_policy (codes "users_admin_all") (codes "users")
    ∷ create_policy (codes "users") (users_admin_all (active_admin_exists uid_001))
    ∷ []

pub record Revision : Type 0 where
  pub revision : Text
  pub down_revision : Option Text
  pub upgrade : List Op
  pub downgrade : List Op

-- The revisions, each after the one that its `down_revision` names.
unfoldable pub revisions : List Revision
unfolding upgrade_001 downgrade_001 upgrade_002 downgrade_002 upgrade_003 downgrade_003 upgrade_004
    downgrade_004 upgrade_005 downgrade_005 upgrade_006 downgrade_006
revisions =
    record {
      revision = codes "001";
      down_revision = none;
      upgrade = upgrade_001;
      downgrade = downgrade_001;
    }
    ∷ record {
      revision = codes "002";
      down_revision = some (codes "001");
      upgrade = upgrade_002;
      downgrade = downgrade_002;
    }
    ∷ record {
      revision = codes "003";
      down_revision = some (codes "002");
      upgrade = upgrade_003;
      downgrade = downgrade_003;
    }
    ∷ record {
      revision = codes "004";
      down_revision = some (codes "003");
      upgrade = upgrade_004;
      downgrade = downgrade_004;
    }
    ∷ record {
      revision = codes "005";
      down_revision = some (codes "004");
      upgrade = upgrade_005;
      downgrade = downgrade_005;
    }
    ∷ record {
      revision = codes "006";
      down_revision = some (codes "005");
      upgrade = upgrade_006;
      downgrade = downgrade_006;
    }
    ∷ []
