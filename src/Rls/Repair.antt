-- ===== src/Rls/Repair.antt =====
-- Why revision 006 of alembic/versions exists: what the policies of the revisions before it answer.
use alma_lead_management_ser.Common.{◌≡◌, ◌≢◌, refl, List, [], ◌∷◌, codes, arith, map, some, true}
use alma_lead_management_ser.Models.{User}
use alma_lead_management_ser.Security.{Crypto}
use alma_lead_management_ser.Sql.{Policy}
use alma_lead_management_ser.Migrations.Columns.{
  users_policies, leads_policies, audit_logs_policies, uid_001, uid_006, users_admin_all,
  users_self_select, leads_select, leads_insert, leads_update, audit_logs_admin_select,
  audit_logs_insert, active_admin_exists,
}
use alma_lead_management_ser.Migrations.{Schema, SqlTable, effect, set_granted}
use alma_lead_management_ser.Migrations.Revisions.{
  revisions, upgrade_001, upgrade_002, upgrade_003, upgrade_004, upgrade_005,
}
use alma_lead_management_ser.Migrations.Steps.{Fresh, effects}
use alma_lead_management_ser.Migrations.Chain.{at, upgrade_to, upgrade_to-at}
use alma_lead_management_ser.Migrations.Agreement.{IsSecured}
use alma_lead_management_ser.Rls.{
  Settings, fails, raises, equals_text, invalid, cast_uid, at_user, elsewhere, user_readable,
  visible_user_exists, row_readable, row_updatable,
}
use alma_lead_management_ser.Rls.Verdicts.{user_readable-defined}
use alma_lead_management_ser.Rls.Truths.{equals_text-defined, or_truth-raises}
use alma_lead_management_ser.Rls.Rows.{leads_readable-defined}

-- The policies that stand at revision 005.
abbrev pub earlier_users_policies : List Policy
earlier_users_policies =
    users_admin_all (active_admin_exists uid_001) ∷ users_self_select uid_001 ∷ []

abbrev pub earlier_leads_policies : List Policy
earlier_leads_policies = leads_insert ∷ leads_select uid_001 ∷ leads_update uid_001 ∷ []

abbrev pub earlier_audit_logs_policies : List Policy
earlier_audit_logs_policies =
    audit_logs_admin_select (active_admin_exists uid_001) ∷ audit_logs_insert ∷ []

-- They do stand there, after an upgrade of a database that had nothing of the service.
upgrade_to-IsSecured :
    (s : Schema)
    → Fresh s
    → (d : Schema) × (users : SqlTable) × (leads : SqlTable) × (audit_logs : SqlTable) × (upgrade_to
          5 s
        ≡ some d)
      × (d.tables ≡ audit_logs ∷ leads ∷ users ∷ map (set_granted true) s.tables)
      × IsSecured earlier_users_policies users
      × IsSecured earlier_leads_policies leads
      × IsSecured earlier_audit_logs_policies audit_logs
unfolding at revisions effects effect upgrade_001 upgrade_002 upgrade_003 upgrade_004 upgrade_005
upgrade_to-IsSecured s h = (
  at 5 s,
  _,
  _,
  _,
  upgrade_to-at 5 s h,
  refl,
  (refl, refl, refl),
  (refl, refl, refl),
  (refl, refl, refl),
)

-- At revision 005 every statement that reads an account, or that reads a lead or the audit trail
-- or changes a lead while there is an account, ends in an error, whatever the connection's
-- settings. At revision 006 no statement that reads an account, a lead or the trail does, under any
-- settings whose user id is no malformed UUID.
pub row_readable-repaired :
    (C : Crypto) (s t : Settings) (u : User) (us : List User)
    → cast_uid C uid_006 t ≢ invalid
    → ((user_readable C earlier_users_policies s u ≡ raises)
        × (row_readable C earlier_users_policies s (u ∷ us) earlier_leads_policies ≡ raises)
        × (row_updatable C earlier_users_policies s (u ∷ us) earlier_leads_policies ≡ raises)
        × (row_readable C earlier_users_policies s (u ∷ us) earlier_audit_logs_policies ≡ raises))
      × ((user_readable C users_policies t u ≢ raises)
          × (row_readable C users_policies t (u ∷ us) leads_policies ≢ raises)
          × (row_readable C users_policies t (u ∷ us) audit_logs_policies ≢ raises))
unfolding user_readable row_readable row_updatable elsewhere visible_user_exists at_user
row_readable-repaired C s t u us cast = (
  (refl, refl, refl, refl),
  (
    user_readable-defined C t u cast,
    leads_readable-defined C t (u ∷ us) cast,
    or_truth-raises (equals_text t.user_role (codes "ADMIN")) fails
        (equals_text-defined t.user_role (codes "ADMIN")) (λ h. ground arith),
  ),
)
