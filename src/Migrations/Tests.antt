-- ===== src/Migrations/Tests.antt =====
-- The migrations of a database that holds a table of somebody else's.
use alma_lead_management_ser.Common.{
  ◌+◌, ◌≡◌, refl, true, false, none, some, [], ◌∷◌, map, take, All, codes,
}
use alma_lead_management_ser.Sql.{uuid}
use alma_lead_management_ser.Migrations.{Schema, SqlTable, migrate, allowed, effect, set_granted}
use alma_lead_management_ser.Migrations.Columns.{
  column, users_policies, leads_policies, audit_logs_policies,
}
use alma_lead_management_ser.Migrations.Revisions.{
  revisions, upgrade_001, upgrade_002, upgrade_003, upgrade_004,
}
use alma_lead_management_ser.Migrations.Steps.{Fresh, Ungranted}
use alma_lead_management_ser.Migrations.Chain.{
  and_then, upgrade_to, downgrade_by, downgrade_by-upgrade_to, downgrade_by-revokes,
}
use alma_lead_management_ser.Migrations.Agreement.{
  Implements, IsSecured, user_table, lead_table, audit_log_table, upgrade_to-Implements,
}

abbrev shared : Schema
shared = record {
  tables =
      record {
        name = codes "invoices";
        columns = column (codes "id") uuid ∷ [];
        indexes = [];
        policies = [];
        row_security = false;
        forced = false;
        granted = false;
      }
      ∷ [];
  enums = codes "currency" ∷ [];
  sequences_granted = false;
  alma_app = true;
  granted_by_default = false;
}

shared-Fresh : Fresh shared
shared-Fresh = record {
  no_users = refl;
  no_leads = refl;
  no_audit_logs = refl;
  no_index =
      (refl, (refl, (refl, (refl, (refl, (refl, (refl, (refl, (refl, (refl, (refl, tt)))))))))));
  users_unreferenced = refl;
  leads_unreferenced = refl;
  audit_logs_unreferenced = refl;
  no_userrole = refl;
  no_leadstate = refl;
  userrole_unused = refl;
  leadstate_unused = refl;
  has_role = refl;
}

shared-Ungranted : Ungranted shared
shared-Ungranted = record {
  tables_not_granted = (refl, tt);
  sequences_not_granted = refl;
  not_by_default = refl;
}

-- Without the role revision 004 is refused.
upgrade_to-no_role : upgrade_to 4 (record shared { alma_app = false }) ≡ none
unfolding upgrade_to revisions migrate allowed effect upgrade_001 upgrade_002 upgrade_003
    upgrade_004
upgrade_to-no_role = refl

abbrev docker : Schema
docker = record shared { granted_by_default = true }

docker-Fresh : Fresh docker
docker-Fresh = record {
  no_users = refl;
  no_leads = refl;
  no_audit_logs = refl;
  no_index = shared-Fresh.no_index;
  users_unreferenced = refl;
  leads_unreferenced = refl;
  audit_logs_unreferenced = refl;
  no_userrole = refl;
  no_leadstate = refl;
  userrole_unused = refl;
  leadstate_unused = refl;
  has_role = refl;
}

downgrade_by-revokes_example :
    (d : Schema) × (before : Schema) × (and_then (upgrade_to 4 docker) (downgrade_by 1 3) ≡ some d)
    × (upgrade_to 3 docker ≡ some before)
    × (map (λ t. t.granted) (take 3 before.tables) ≡ true ∷ true ∷ true ∷ [])
    × All (λ t. t.granted ≡ false) d.tables
downgrade_by-revokes_example = downgrade_by-revokes docker docker-Fresh refl

downgrade_by-upgrade_to_example :
    ((d : Schema) × (upgrade_to (4 + 2) shared ≡ some d))
    × (and_then (upgrade_to (4 + 2) shared) (downgrade_by 4 2) ≡ upgrade_to 2 shared)
downgrade_by-upgrade_to_example = downgrade_by-upgrade_to 4 2 shared shared-Fresh shared-Ungranted

upgrade_to-Implements_example :
    (d : Schema) × (users : SqlTable) × (leads : SqlTable) × (audit_logs : SqlTable) × (upgrade_to 6
        shared
      ≡ some d)
    × (d.tables ≡ audit_logs ∷ leads ∷ users ∷ map (set_granted true) shared.tables)
    × (Implements users user_table × IsSecured users_policies users)
    × (Implements leads lead_table × IsSecured leads_policies leads)
    × (Implements audit_logs audit_log_table × IsSecured audit_logs_policies audit_logs)
upgrade_to-Implements_example = upgrade_to-Implements shared shared-Fresh
