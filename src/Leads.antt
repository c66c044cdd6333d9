-- ===== src/Leads.antt =====
-- app/services/lead_service.py on the table `leads`.
pub mod Lookup
pub mod Transitions
pub mod Listing
pub mod Racing
mod Tests
use alma_lead_management_ser.Common.{
  ℕ, Bool, true, ◌&&◌, Option, none, some, List, ◌==◌, if◌then◌else◌, Text, codes,
}
use alma_lead_management_ser.Results.{
  Result, ok, err, Error, http, integrity_error, Action, ◌>>=◌, ◌>>◌, raise_if,
}
use alma_lead_management_ser.Models.{
  User, Lead, LeadState, pending, reached_out, state_eq, new_lead,
}
use alma_lead_management_ser.Engine.{Engine, Db, user_fk}
use alma_lead_management_ser.Auth.{scalar_one_or_none}

abbrev pub lead_not_found : Error
lead_not_found = http 404 (codes "Lead not found")

abbrev pub cannot_revert : Error
cannot_revert = http 400 (codes "Cannot transition from REACHED_OUT back to PENDING")

-- The filter of a listing.
abbrev pub in_state : Option LeadState → Lead → Bool
in_state none l = true
in_state (some s) l = state_eq l.state s

-- The assignments of `update_lead_state`. `updated_at` follows the row by `onupdate`, and setting
-- PENDING on a lead that is PENDING writes no row.
abbrev pub with_state : (now : ℕ) → LeadState → User → Lead → Lead
with_state now pending user l = record l { state = pending }
with_state now reached_out user l = record l {
  state = reached_out;
  updated_at = now;
  reached_out_at = some now;
  reached_out_by_id = some user.id;
}

module _ (E : Engine) where
  abbrev stored : Lead → Db E → Option E.leads.Store → Result Lead × Db E
  stored l db none = (err integrity_error, db)
  stored l db (some leads) = (ok l, record db { leads = leads })

  unfoldable pub create_lead :
      (fresh_id now : ℕ) → (first_name last_name email resume_path : Text) → Action (Db E) Lead
  create_lead fresh_id now first_name last_name email resume_path db =
      let l = new_lead fresh_id now first_name last_name email resume_path in
      stored l db (E.leads.insert l db.leads)

  abbrev found_lead : Option Lead → Result Lead
  found_lead none = err lead_not_found
  found_lead (some l) = ok l

  abbrev selected_lead : Result (Option Lead) → Result Lead
  selected_lead (ok o) = found_lead o
  selected_lead (err e) = err e

  -- `select(Lead).where(Lead.id == lead_id)`
  unfoldable pub get_lead : ℕ → Action (Db E) Lead
  get_lead lead_id db =
      (selected_lead (scalar_one_or_none (E.leads.find (λ l. l.id == lead_id) db.leads)), db)

  -- The user that the relationship `reached_out_by` loads with the lead.
  unfoldable pub reached_out_by : Lead → Db E → Option User
  reached_out_by l db = elim l.reached_out_by_id [
    | none ↦ none
    | some user_id ↦ E.users.get user_id db.users
  ]

  unfoldable pub list_leads : Db E → Option LeadState → (limit offset : ℕ) → List Lead × ℕ
  list_leads db state limit offset = (
    E.leads.page (in_state state) (λ l. l.created_at) limit offset db.leads,
    E.leads.count (in_state state) db.leads,
  )

  -- `commit`, where the foreign key of the row is checked.
  abbrev pub save_lead : Lead → Action (Db E) Lead
  save_lead l db =
      if user_fk E l.reached_out_by_id db
      then (ok l, record db { leads = E.leads.update l db.leads })
      else (err integrity_error, db)

  unfoldable pub update_lead_state : (now lead_id : ℕ) → LeadState → User → Action (Db E) Lead
  update_lead_state now lead_id new_state user = do
    lead ← get_lead lead_id
    raise_if (state_eq lead.state reached_out && state_eq new_state pending) cannot_revert
    save_lead (with_state now new_state user lead)
