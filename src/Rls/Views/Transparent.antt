-- ===== src/Rls/Views/Transparent.antt =====
-- For whom the policies of revision 006 hide nothing: what the services read of the three tables.
use alma_lead_management_ser.Common.{
  ℕ, ◌≡◌, ◌≢◌, refl, sym, inl, Bool, true, ◌&&◌, Option, none, some, List, ◌++◌, All, subst, Text,
  codes, arith,
}
use alma_lead_management_ser.Models.{User, Lead, LeadState, AuditLog, admin, role_value}
use alma_lead_management_ser.Database.{Table}
use alma_lead_management_ser.Engine.{Engine, IsEngine, Db}
use alma_lead_management_ser.Leads.{list_leads, get_lead}
use alma_lead_management_ser.Security.{
  Crypto, IsCrypto, TokenSettings, Payload, decode_access_token,
}
use alma_lead_management_ser.Results.{ok}
use alma_lead_management_ser.Dependencies.{subject_id}
use alma_lead_management_ser.Database.Members.{All-imp}
use alma_lead_management_ser.Context.{Variable, set_rls_context, get_db}
use alma_lead_management_ser.Context.Agreement.{parsed_truthy}
use alma_lead_management_ser.Migrations.Columns.{
  users_policies, leads_policies, audit_logs_policies, uid_006,
}
use alma_lead_management_ser.Rls.{Settings, cast_uid, invalid, row_readable}
use alma_lead_management_ser.Rls.Verdicts.{IsAdmin, ActsFor}
use alma_lead_management_ser.Rls.Rows.{policies_iff}
use alma_lead_management_ser.Rls.Pool.{Event, session}
use alma_lead_management_ser.Rls.Pool.Lifetime.{session-own}
use alma_lead_management_ser.Rls.Views.{is_shown, shown, keep, view}
use alma_lead_management_ser.Rls.Views.Requests.{is_shown_iff, shown_iff_acting}

module _ {Row : Type 0} (test : Row → Bool) (passes : (r : Row) → test r ≡ true) where
  keep-passes : (o : Option Row) → keep test o ≡ o
  keep-passes none = refl
  keep-passes (some r) = ground (arith, passes r)

  also_passes : (p : Row → Bool) (r : Row) → (p r && test r) ≡ p r
  also_passes p r = ground (arith, passes r)

  -- A view that shows every row is the table.
  abbrev view_whole : {id : Row → ℕ} → (T : Table id) → view test T ≡ T
  view_whole T = λ i. record T {
    get = λ k s. keep-passes (T.get k s) i;
    find = λ p s. T.find (λ r. also_passes p r i) s;
    order = λ p key s. T.order (λ r. also_passes p r i) key s;
    page = λ p key limit offset s. T.page (λ r. also_passes p r i) key limit offset s;
    count = λ p s. T.count (λ r. also_passes p r i) s;
  }

-- The three tables behind the policies: the policies on leads and on the trail look at the accounts
-- that a statement finds, `all_users`.
abbrev pub all_users : (E : Engine) → Db E → List User
all_users E db = E.users.find (λ u. true) db.users

abbrev pub lead_shown : Crypto → Settings → List User → Lead → Bool
lead_shown C s users l = is_shown (row_readable C users_policies s users leads_policies)

abbrev pub log_shown : Crypto → Settings → List User → AuditLog → Bool
log_shown C s users a = is_shown (row_readable C users_policies s users audit_logs_policies)

abbrev pub behind_policies : Crypto → Settings → List User → Engine → Engine
behind_policies C s users E = record {
  users = view (shown C s) E.users;
  leads = view (lead_shown C s users) E.leads;
  audit_logs = view (log_shown C s users) E.audit_logs;
}

abbrev pub as_behind :
    (C : Crypto)
    → (s : Settings) → (users : List User) → (E : Engine) → Db E
    → Db (behind_policies C s users E)
as_behind C s users E db = record { users = db.users; leads = db.leads; audit_logs = db.audit_logs }

module _ (E : Engine) (laws : IsEngine E) (C : Crypto) (s : Settings) (db : Db E) (u : User)
    (acts : ActsFor C s u.id) (here : E.users.get u.id db.users ≡ some u)
    (on : u.is_active ≡ true) where
  abbrev everyone : List User
  everyone = all_users E db

  valid : cast_uid C uid_006 s ≢ invalid
  valid e = ground arith

  leads_shown : (l : Lead) → lead_shown C s everyone l ≡ true
  leads_shown l = (is_shown_iff (row_readable C users_policies s everyone leads_policies)).1 (
      (policies_iff C s everyone valid u).1.1
        (u, laws.users.Has-find (λ v. true) u.id db.users u here refl, acts, on))

  -- Whoever is stored, active and signed in finds through the policies every lead that there is,
  -- one by one and in the listing.
  pub leads-behind_policies :
      (state : Option LeadState) (lead_id limit offset : ℕ)
      → let F = behind_policies C s everyone E in
        ((get_lead F lead_id (as_behind C s everyone E db)).0 ≡ (get_lead E lead_id db).0)
        × (list_leads F (as_behind C s everyone E db) state limit offset
            ≡ list_leads E db state limit offset)
  unfolding get_lead list_leads
  leads-behind_policies state lead_id limit offset =
      let whole = view_whole (lead_shown C s everyone) leads_shown E.leads in
      (
        λ i.
            (get_lead (record E { leads = whole i }) lead_id
              (record { users = db.users; leads = db.leads; audit_logs = db.audit_logs })).0,
        λ i.
            list_leads (record E { leads = whole i })
              (record { users = db.users; leads = db.leads; audit_logs = db.audit_logs }) state
              limit offset,
      )

  module _ (acts_as_admin : IsAdmin s) where
    users_shown : (v : User) → shown C s v ≡ true
    users_shown v = (shown_iff_acting C s u.id acts v).1 (inl acts_as_admin)

    logs_shown : (a : AuditLog) → log_shown C s everyone a ≡ true
    logs_shown a =
        (is_shown_iff (row_readable C users_policies s everyone audit_logs_policies)).1
          ((policies_iff C s everyone valid u).3.1 acts_as_admin)

    -- For an active administrator the policies change nothing that is read: whatever is computed
    -- from the three tables through the policies is what is computed from the tables themselves.
    pub behind_policies-transparent :
        {X : Type 0} (H : (F : Engine) → Db F → X)
        → H (behind_policies C s everyone E) (as_behind C s everyone E db) ≡ H E db
    behind_policies-transparent H = λ i.
        H
          (record {
            users = view_whole (shown C s) users_shown E.users i;
            leads = view_whole (lead_shown C s everyone) leads_shown E.leads i;
            audit_logs = view_whole (log_shown C s everyone) logs_shown E.audit_logs i;
          })
          (record { users = db.users; leads = db.leads; audit_logs = db.audit_logs })

-- Every statement of a request with a valid token that names a stored active account and carries
-- the role of an administrator reads the three tables as if there were no policies, on whatever
-- connection of the pool and whatever else the request commits.
pub session-transparent :
    (E : Engine)
    → IsEngine E
    → (C : Crypto) → IsCrypto C
    → (settings : TokenSettings) (now : ℕ) (token : Text) (p : Payload) (u : User) (db : Db E)
    → (es : List Event) (idle : Settings) → {X : Type 0} (H : (F : Engine) → Db F → X)
    → decode_access_token C settings now token ≡ ok p
    → subject_id C p ≡ ok u.id
    → p.role ≡ some (role_value admin)
    → E.users.get u.id db.users ≡ some u
    → u.is_active ≡ true
    → let users = all_users E db in
      (vs : List Variable) × (get_db C settings now
          (set_rls_context C settings now (codes "Bearer " ++ token))
        ≡ ok vs)
      × All
          (λ s. H (behind_policies C s users E) (as_behind C s users E db) ≡ H E db)
          (session vs es idle).0
session-transparent E laws C crypto settings now token p u db es idle H decoded subject role here
      on =
    let (vs, set, own) =
      session-own C crypto settings now token p u.id admin es idle decoded subject role in
    let parsed = crypto.uuid_parse-uuid_str u.id in
    let acts : ActsFor C
        (record { user_id = some (C.uuid_str u.id); user_role = some (role_value admin) }) u.id =
      ground (arith, parsed, parsed_truthy C crypto (C.uuid_str u.id) u.id parsed) in
    (
      vs,
      set,
      All-imp
          (λ s e.
            subst
              (λ r.
                H (behind_policies C r (all_users E db) E) (as_behind C r (all_users E db) E db)
                ≡ H E db)
              (sym e) (behind_policies-transparent E laws C _ db u acts here on refl H))
          (session vs es idle).0 own,
    )
