-- ===== src/Routes/Leads/Working.antt =====
-- What a change of a lead's state leaves in the database and in the audit trail.
use alma_lead_management_ser.Common.{
  ℕ, ◌≡◌, ap, ◌∙◌, none, some, [], ◌∷◌, ◌==◌, if◌then◌else◌, Text, arith,
}
use alma_lead_management_ser.Results.{ok}
use alma_lead_management_ser.Models.{User, Lead, reached_out, state_value}
use alma_lead_management_ser.Engine.{Engine, IsEngine, Db}
use alma_lead_management_ser.Security.{Crypto, TokenSettings}
use alma_lead_management_ser.Dependencies.{get_current_user}
use alma_lead_management_ser.Dependencies.Access.{
  get_current_user-IsGenuine, get_current_user-reads,
}
use alma_lead_management_ser.Audit.Log.{state_change, record_action, Surroundings, new_entry}
use alma_lead_management_ser.Audit.Log.Writes.{record_action-saves}
use alma_lead_management_ser.Audit.Tracker.{AuditFailureTracker}
use alma_lead_management_ser.Leads.{with_state}
use alma_lead_management_ser.Leads.Lookup.{get_lead_lem}
use alma_lead_management_ser.Leads.Transitions.{update_lead_state-reaches_out}
use alma_lead_management_ser.Routes.{Moment, audit}
use alma_lead_management_ser.Routes.Leads.{update_lead_state}

module _ (E : Engine) (laws : IsEngine E) (C : Crypto) (settings : TokenSettings) (m : Moment)
    (token : Text) (db : Db E) where
  -- Whoever is let through by the token marks a stored lead as REACHED_OUT. The row takes the state,
  -- the time and the user; one task is queued, and its audit entry names the user, the lead, the state
  -- that the lead had before and the new one.
  pub update_lead_state-audits :
      (user : User) (l : Lead) (k : ℕ)
      → (get_current_user E C settings m.now token db).0 ≡ ok user
      → E.leads.get k db.leads ≡ some l
      → let l' = with_state m.now reached_out user l in
        let (r, db') = update_lead_state E C settings m token k reached_out db in
        (r
          ≡ ok (
            l',
            audit (
                  state_change k user.id user.email (state_value l.state) (state_value reached_out))
                ∷ [],
          ))
        × ((j : ℕ) → E.leads.get j db'.leads ≡ (if j == k then some l' else E.leads.get j db.leads))
  unfolding update_lead_state
  update_lead_state-audits user l k who h =
      let here = (get_current_user-IsGenuine E C settings m.now token db laws user who).0 in
      let reads = get_current_user-reads E C settings m.now token db in
      let change =
        λ (j : ℕ). update_lead_state-reaches_out E laws db m.now k j user user l h here in
      (
        ground (arith, reads, get_lead_lem E laws k db, (change 0).0),
        λ j. ground (arith, reads, get_lead_lem E laws k db, (change j).0, (change j).5),
      )

  same_users :
      (user : User) (l : Lead) (k : ℕ)
      → (get_current_user E C settings m.now token db).0 ≡ ok user
      → E.leads.get k db.leads ≡ some l
      → let db' = (update_lead_state E C settings m token k reached_out db).1 in
        (db'.users ≡ db.users) × (db'.audit_logs ≡ db.audit_logs)
  unfolding update_lead_state
  same_users user l k who h =
      let here = (get_current_user-IsGenuine E C settings m.now token db laws user who).0 in
      let reads = get_current_user-reads E C settings m.now token db in
      let change = update_lead_state-reaches_out E laws db m.now k 0 user user l h here in
      (
        ground (arith, reads, get_lead_lem E laws k db, change.0, change.6),
        ground (arith, reads, get_lead_lem E laws k db, change.0, change.7),
      )

  -- Whoever the token lets through marks a stored lead as REACHED_OUT: the request queues one audit
  -- entry of the change and no other task. Recorded on the database that the request leaves, the
  -- sanitised entry is stored under its key, if the database can be reached then and the key is
  -- fresh.
  pub update_lead_state-leaves_entry :
      (user : User) (l : Lead) (k : ℕ) (env : Surroundings) (tracker : AuditFailureTracker)
      → (get_current_user E C settings m.now token db).0 ≡ ok user
      → E.leads.get k db.leads ≡ some l
      → env.fault ≡ none
      → E.audit_logs.get env.fresh_id db.audit_logs ≡ none
      → let (r, db') = update_lead_state E C settings m token k reached_out db in
        let entry =
          state_change k user.id user.email (state_value l.state) (state_value reached_out) in
        let t' = (record_action E env entry (record { db = db'; tracker = tracker })).0 in
        (r ≡ ok (with_state m.now reached_out user l, audit entry ∷ []))
        × (E.audit_logs.get env.fresh_id t'.db.audit_logs ≡ some (new_entry env entry))
  unfolding state_change
  update_lead_state-leaves_entry user l k env tracker who h up fresh =
      let db' = (update_lead_state E C settings m token k reached_out db).1 in
      let here = (get_current_user-IsGenuine E C settings m.now token db laws user who).0 in
      let same = same_users user l k who h in
      let changed = (update_lead_state-audits user l k who h).1 k in
      let there : E.users.get user.id db'.users ≡ some user =
        ap (λ s. E.users.get user.id s) same.0 ∙ here in
      let none_yet : E.audit_logs.get env.fresh_id db'.audit_logs ≡ none =
        ap (λ s. E.audit_logs.get env.fresh_id s) same.1 ∙ fresh in
      let entry =
        state_change k user.id user.email (state_value l.state) (state_value reached_out) in
      (
        (update_lead_state-audits user l k who h).0,
        (record_action-saves E laws env entry (record { db = db'; tracker = tracker }) up
                (ground (arith, there)) (ground (arith, changed)) none_yet).0
              env.fresh_id
            ∙ ground arith,
      )
