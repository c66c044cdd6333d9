-- ===== src/Audit/Log/Queries.antt =====
-- What the two listings of the audit trail return.
use alma_lead_management_ser.Common.{
  ℕ, ◌*◌, ◌≤◌, ◌≡◌, ◌↔◌, Bool, true, ◌&&◌, Option, none, some, [], ◌∷◌, Text, text_eq_iff, length,
  arith,
}
use alma_lead_management_ser.Models.{AuditLog}
use alma_lead_management_ser.Engine.{Engine, IsEngine, Db}
use alma_lead_management_ser.Database.{NoTies}
use alma_lead_management_ser.Database.Paging.{walk, IsListing, order-IsListing, walk-IsListing}
use alma_lead_management_ser.Audit.Log.{
  of_lead, where_eq, wanted_logs, get_lead_audit_logs, get_all_audit_logs,
}

-- A filter that is absent or empty asks for nothing.
abbrev pub Asks : Option Text → Text → Type 0
Asks none column = Unit
Asks (some []) column = Unit
Asks (some (c ∷ s)) column = column ≡ c ∷ s

where_eq_iff :
    (wanted : Option Text) (column : Text) → (where_eq wanted column ≡ true) ↔ Asks wanted column
where_eq_iff none column = ground arith
where_eq_iff (some []) column = ground arith
where_eq_iff (some (c ∷ s)) column = text_eq_iff column (c ∷ s)

-- The condition of the query is the conjunction of the filters that were given.
pub wanted_logs_iff :
    (entity_type action : Option Text) (a : AuditLog)
    → (wanted_logs entity_type action a ≡ true)
      ↔ (Asks entity_type a.entity_type × Asks action a.action)
wanted_logs_iff entity_type action a =
    let e = where_eq_iff entity_type a.entity_type in
    let f = where_eq_iff action a.action in
    ((λ h. (e.0 (ground arith), f.0 (ground arith))), (λ h. and_lem _ _ (e.1 h.0) (f.1 h.1)))
  where
    and_lem : (b c : Bool) → b ≡ true → c ≡ true → (b && c) ≡ true
    and_lem b c p q = rw (p, q)

module _ (E : Engine) (laws : IsEngine E) (db : Db E) where
  -- Where no two entries that pass the filters were written at the same time, a client that
  -- asks for page after page until it has `total` entries has seen every one of them, each once, from
  -- the newest to the oldest.
  pub get_all_audit_logs-pages :
      (entity_type action : Option Text) (limit rounds : ℕ)
      → (get_all_audit_logs E db entity_type action limit 0).1 ≤ rounds * limit
      → NoTies E.audit_logs (wanted_logs entity_type action) (λ a. a.created_at) db.audit_logs
      → let l = walk (λ o. (get_all_audit_logs E db entity_type action limit o).0) rounds limit 0 in
        IsListing E.audit_logs (wanted_logs entity_type action) (λ a. a.created_at) db.audit_logs l
        × (length l ≡ (get_all_audit_logs E db entity_type action limit 0).1)
  unfolding get_all_audit_logs
  get_all_audit_logs-pages entity_type action limit rounds h total =
      walk-IsListing E.audit_logs laws.audit_logs (wanted_logs entity_type action)
        (λ a. a.created_at) db.audit_logs limit rounds h total

  -- The log of a lead is every entry with its key, each once, from the newest to the oldest.
  pub get_lead_audit_logs-IsListing :
      (lead_id : ℕ)
      → IsListing E.audit_logs
          (of_lead lead_id)
          (λ a. a.created_at)
          db.audit_logs
          (get_lead_audit_logs E db lead_id)
  unfolding get_lead_audit_logs
  get_lead_audit_logs-IsListing lead_id =
      order-IsListing E.audit_logs laws.audit_logs (of_lead lead_id) (λ a. a.created_at)
        db.audit_logs
