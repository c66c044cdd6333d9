-- ===== src/Effects/Services.antt =====
-- Every call of a service function is one step of the relation, whatever it returns or raises.
use alma_lead_management_ser.Common.{
  ℕ, ◌≡◌, refl, sym, inl, inr, ◌⊎◌, true, false, not, subst, ◌&&◌, ◌||◌, some, Option-cases,
  Bool-cases, arith, Text, ◌==◌,
}
use alma_lead_management_ser.Models.{User, UserRole, LeadState, new_lead}
use alma_lead_management_ser.Engine.{Engine, IsEngine, Db, delete_user_row, user_fk, lead_fk}
use alma_lead_management_ser.Security.{Crypto}
use alma_lead_management_ser.Auth.{
  add_user, register_user, deactivate_user, reactivate_user, delete_user, get_user, outranks,
}
use alma_lead_management_ser.Leads.{create_lead, update_lead_state}
use alma_lead_management_ser.Auth.Register.{register_user-outcome}
use alma_lead_management_ser.Leads.Transitions.{update_lead_state-outcome}
use alma_lead_management_ser.Audit.Log.{
  Action, Surroundings, Trail, new_entry, write_entry, record_action,
}
use alma_lead_management_ser.Effects.{
  Effect, nothing, added_user, changed_user, removed_user, added_lead, moved_lead, added_entry,
}

module _ (E : Engine) (db : Db E) where
  add_user-Effect : (u : User) → Effect E db (add_user E u db).1
  add_user-Effect u = elim (Option-cases (E.users.insert u db.users)) [
    | inl e ↦ nothing (ground (arith, e))
    | inr (users, e) ↦ added_user u users e (ground (arith, e))
  ]

  pub register_user-Effect :
      (C : Crypto) (fresh_id now : ℕ) (salt email password : Text) (role : UserRole)
      → Effect E db (register_user E C fresh_id now salt email password role db).1
  register_user-Effect C fresh_id now salt email password role =
      elim (register_user-outcome E db C fresh_id now salt email password role) [
        | inl same ↦ nothing same
        | inr added ↦ subst (Effect E db) (sym added) (add_user-Effect _)
      ]

  deactivate_outcome :
      (k : ℕ) (requesting : User)
      → let db' = (deactivate_user E k requesting db).1 in
        (db' ≡ db)
        ⊎ ((u : User) × (E.users.get k db.users ≡ some u)
            × (db'
                ≡ record db { users = E.users.update (record u { is_active = false }) db.users }))
  unfolding deactivate_user get_user
  deactivate_outcome k requesting = elim (Option-cases (E.users.get k db.users)) [
    | inl e ↦ inl (ground arith)
    | inr (u, e) ↦
        elim (Bool-cases (u.id == requesting.id || outranks u requesting || not u.is_active)) [
          | inl refused ↦ inl (ground arith)
          | inr done ↦ inr (u, e, ground arith)
        ]
  ]

  pub deactivate_user-Effect :
      (k : ℕ) (requesting : User) → Effect E db (deactivate_user E k requesting db).1
  deactivate_user-Effect k requesting = elim (deactivate_outcome k requesting) [
    | inl same ↦ nothing same
    | inr (u, e, done) ↦ changed_user k u (record u { is_active = false }) e refl refl refl done
  ]

  reactivate_outcome :
      (k : ℕ)
      → let db' = (reactivate_user E k db).1 in
        (db' ≡ db)
        ⊎ ((u : User) × (E.users.get k db.users ≡ some u)
            × (db' ≡ record db { users = E.users.update (record u { is_active = true }) db.users }))
  unfolding reactivate_user get_user
  reactivate_outcome k = elim (Option-cases (E.users.get k db.users)) [
    | inl e ↦ inl (ground arith)
    | inr (u, e) ↦ elim (Bool-cases u.is_active) [
      | inl refused ↦ inl (ground arith)
      | inr done ↦ inr (u, e, ground arith)
    ]
  ]

  pub reactivate_user-Effect : (k : ℕ) → Effect E db (reactivate_user E k db).1
  reactivate_user-Effect k = elim (reactivate_outcome k) [
    | inl same ↦ nothing same
    | inr (u, e, done) ↦ changed_user k u (record u { is_active = true }) e refl refl refl done
  ]

  delete_outcome :
      (k : ℕ) (requesting : User)
      → let db' = (delete_user E k requesting db).1 in
        (db' ≡ db) ⊎ ((u : User) × (db' ≡ delete_user_row E u.id db))
  unfolding delete_user get_user
  delete_outcome k requesting = elim (Option-cases (E.users.get k db.users)) [
    | inl e ↦ inl (ground arith)
    | inr (u, e) ↦ elim (Bool-cases (u.id == requesting.id || outranks u requesting)) [
      | inl refused ↦ inl (ground arith)
      | inr done ↦ inr (u, ground arith)
    ]
  ]

  pub delete_user-Effect :
      (k : ℕ) (requesting : User) → Effect E db (delete_user E k requesting db).1
  delete_user-Effect k requesting = elim (delete_outcome k requesting) [
    | inl same ↦ nothing same
    | inr (u, done) ↦ removed_user u.id done
  ]

  pub create_lead-Effect :
      (id now : ℕ) (first_name last_name email resume_path : Text)
      → Effect E db (create_lead E id now first_name last_name email resume_path db).1
  unfolding create_lead
  create_lead-Effect id now first_name last_name email resume_path =
      elim (Option-cases
        (E.leads.insert (new_lead id now first_name last_name email resume_path) db.leads)) [
          | inl e ↦ nothing (ground (arith, e))
          | inr (leads, e) ↦
              added_lead id now first_name last_name email resume_path leads e (ground (arith, e))
        ]

  pub update_lead_state-Effect :
      IsEngine E
      → (now k : ℕ) (s : LeadState) (user : User)
      → Effect E db (update_lead_state E now k s user db).1
  update_lead_state-Effect laws now k s user =
      elim (update_lead_state-outcome E laws db now k s user) [
        | inl same ↦ nothing same
        | inr (l, h, forward, done) ↦ moved_lead now k s user l h forward done
      ]

module _ (E : Engine) where
  pub record_action-Effect :
      (env : Surroundings) (a : Action) (t : Trail E) → Effect E t.db (record_action E env a t).0.db
  unfolding record_action write_entry
  record_action-Effect env a t =
      elim (Option-cases (E.audit_logs.insert (new_entry env a) t.db.audit_logs)) [
        | inl e ↦ nothing (ground arith)
        | inr (logs, e) ↦ elim (Option-cases env.fault) [
          | inr (fault, down) ↦ nothing (ground arith)
          | inl up ↦
              elim (Bool-cases (
                user_fk E (new_entry env a).user_id t.db
                && lead_fk E (new_entry env a).lead_id t.db)) [
                  | inl known ↦ added_entry (new_entry env a) logs e (ground arith)
                  | inr unknown ↦ nothing (ground arith)
                ]
        ]
      ]
