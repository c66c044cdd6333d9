-- ===== src/Migrations/Steps.antt =====
-- Each revision up and down, on a database that starts without the service.
use alma_lead_management_ser.Common.{
  ◌≡◌, refl, ap₂, sym, Bool, true, false, some, List, [], ◌∷◌, map, codes, All, Text,
}
use alma_lead_management_ser.Migrations.{
  Schema, SqlTable, Op, has_relation, referenced, has_name, enum_in_use, set_granted, allowed,
  effect, migrate,
}
use alma_lead_management_ser.Migrations.Revisions.{
  upgrade_001, downgrade_001, upgrade_002, downgrade_002, upgrade_003, downgrade_003, upgrade_004,
  downgrade_004, upgrade_005, downgrade_005, upgrade_006, downgrade_006,
}

-- The indexes of the six revisions.
abbrev pub index_names : List Text
index_names =
    codes "ix_users_email"
    ∷ codes "ix_audit_logs_entity_type"
    ∷ codes "ix_audit_logs_entity_id"
    ∷ codes "ix_audit_logs_action"
    ∷ codes "ix_audit_logs_user_id"
    ∷ codes "ix_audit_logs_lead_id"
    ∷ codes "ix_leads_reached_out_by_id"
    ∷ codes "ix_leads_created_at"
    ∷ codes "ix_leads_state"
    ∷ codes "ix_audit_logs_created_at"
    ∷ codes "ix_audit_logs_entity_type_created_at"
    ∷ []

-- A database that has nothing of the service yet but the role alma_app: no relation and no type has a
-- name of the service's.
pub record Fresh (s : Schema) : Type 0 where
  pub no_users : has_relation (codes "users") s.tables ≡ false
  pub no_leads : has_relation (codes "leads") s.tables ≡ false
  pub no_audit_logs : has_relation (codes "audit_logs") s.tables ≡ false
  pub no_index : All (λ name. has_relation name s.tables ≡ false) index_names
  pub users_unreferenced : referenced (codes "users") s.tables ≡ false
  pub leads_unreferenced : referenced (codes "leads") s.tables ≡ false
  pub audit_logs_unreferenced : referenced (codes "audit_logs") s.tables ≡ false
  pub no_userrole : has_name (codes "userrole") s.enums ≡ false
  pub no_leadstate : has_name (codes "leadstate") s.enums ≡ false
  pub userrole_unused : enum_in_use (codes "userrole") s.tables ≡ false
  pub leadstate_unused : enum_in_use (codes "leadstate") s.tables ≡ false
  pub has_role : s.alma_app ≡ true

-- The role alma_app has no privilege on anything, and gets none on new tables.
pub record Ungranted (s : Schema) : Type 0 where
  pub tables_not_granted : All (λ t. t.granted ≡ false) s.tables
  pub sequences_not_granted : s.sequences_granted ≡ false
  pub not_by_default : s.granted_by_default ≡ false

-- What accepted operations do, one after the other.
unfoldable pub effects : List Op → Schema → Schema
effects [] s = s
effects (op ∷ ops) s = effects ops (effect op s)

pub up_001 : (s : Schema) → Fresh s → migrate upgrade_001 s ≡ some (effects upgrade_001 s)
unfolding migrate effects upgrade_001 allowed effect
up_001 s h =
    let (email, (entity_type, (entity_id, (action, (user_id, (lead_id, _)))))) = h.no_index in
    rw
      (
        h.no_users, h.no_leads, h.no_audit_logs, h.no_userrole, h.no_leadstate, email, entity_type,
        entity_id, action, user_id, lead_id,
      )
      refl

pub down_001 : (s : Schema) → Fresh s → migrate downgrade_001 (effects upgrade_001 s) ≡ some s
unfolding migrate effects upgrade_001 downgrade_001 allowed effect
down_001 s h =
    rw
      (
        h.users_unreferenced, h.leads_unreferenced, h.audit_logs_unreferenced, h.userrole_unused,
        h.leadstate_unused,
      )
      refl

pub up_002 :
    (s : Schema)
    → Fresh s
    → migrate upgrade_002 (effects upgrade_001 s)
      ≡ some (effects upgrade_002 (effects upgrade_001 s))
unfolding migrate effects upgrade_001 upgrade_002 allowed effect
up_002 s h =
    let (_, (_, (_, (_, (_, (_, (reached_out_by, _))))))) = h.no_index in rw (reached_out_by) refl

pub down_002 :
    (s : Schema)
    → migrate downgrade_002 (effects upgrade_002 (effects upgrade_001 s))
      ≡ some (effects upgrade_001 s)
unfolding migrate effects upgrade_001 upgrade_002 downgrade_002 allowed effect
down_002 s = refl

abbrev pub at_003 : Schema → Schema
at_003 s = effects upgrade_003 (effects upgrade_002 (effects upgrade_001 s))

pub up_003 :
    (s : Schema)
    → Fresh s
    → migrate upgrade_003 (effects upgrade_002 (effects upgrade_001 s)) ≡ some (at_003 s)
unfolding migrate effects upgrade_001 upgrade_002 upgrade_003 allowed effect
up_003 s h =
    let (_, (_, (_, (_, (_, (_, (_, (created, (state, (logged, (typed, _))))))))))) = h.no_index in
    rw (created, state, logged, typed) refl

pub down_003 :
    (s : Schema)
    → migrate downgrade_003 (at_003 s) ≡ some (effects upgrade_002 (effects upgrade_001 s))
unfolding migrate effects upgrade_001 upgrade_002 upgrade_003 downgrade_003 allowed effect
down_003 s = refl

revoked :
    (ts : List SqlTable)
    → All (λ t. t.granted ≡ false) ts
    → map (set_granted false) (map (set_granted true) ts) ≡ ts
revoked [] h = refl
revoked (t ∷ ts) h =
    ap₂ (λ (b : Bool) (r : List SqlTable). record t { granted = b } ∷ r) (sym h.0) (revoked ts h.1)

abbrev pub at_004 : Schema → Schema
at_004 s = effects upgrade_004 (at_003 s)

pub up_004 : (s : Schema) → Fresh s → migrate upgrade_004 (at_003 s) ≡ some (at_004 s)
unfolding migrate effects upgrade_001 upgrade_002 upgrade_003 upgrade_004 allowed effect
up_004 s h = rw (h.has_role) refl

pub down_004 :
    (s : Schema) → Fresh s → Ungranted s → migrate downgrade_004 (at_004 s) ≡ some (at_003 s)
unfolding migrate effects upgrade_001 upgrade_002 upgrade_003 upgrade_004 downgrade_004 allowed
    effect
down_004 s h g =
    rw
      (h.has_role, g.not_by_default, revoked s.tables g.tables_not_granted, g.sequences_not_granted)
      refl

abbrev pub at_005 : Schema → Schema
at_005 s = effects upgrade_005 (at_004 s)

pub up_005 : (s : Schema) → migrate upgrade_005 (at_004 s) ≡ some (at_005 s)
unfolding migrate effects upgrade_001 upgrade_002 upgrade_003 upgrade_004 upgrade_005 allowed effect
up_005 s = refl

pub down_005 : (s : Schema) → migrate downgrade_005 (at_005 s) ≡ some (at_004 s)
unfolding migrate effects upgrade_001 upgrade_002 upgrade_003 upgrade_004 upgrade_005 downgrade_005
    allowed effect
down_005 s = refl

abbrev pub at_006 : Schema → Schema
at_006 s = effects upgrade_006 (at_005 s)

pub up_006 : (s : Schema) → migrate upgrade_006 (at_005 s) ≡ some (at_006 s)
unfolding migrate effects upgrade_001 upgrade_002 upgrade_003 upgrade_004 upgrade_005 upgrade_006
    allowed effect
up_006 s = refl

pub down_006 : (s : Schema) → migrate downgrade_006 (at_006 s) ≡ some (at_005 s)
unfolding migrate effects upgrade_001 upgrade_002 upgrade_003 upgrade_004 upgrade_005 upgrade_006
    downgrade_006 allowed effect
down_006 s = refl
