-- ===== src/Leads/Racing.antt =====
-- `update_lead_state` of app/services/lead_service.py as two steps: what it reads and tests, and what
-- its `commit` sends. Between the two another request may commit.
pub mod States
pub mod Steps
pub mod Serial
pub mod Mixing
mod Tests
use alma_lead_management_ser.Common.{
  ℕ, ◌≡◌, ◌≢◌, Bool, refl, sym, ap, ◌∙◌, inl, inr, ◌⊎◌, true, false, ◌&&◌, Option, none, some, ◌==◌,
  if◌then◌else◌, Option-cases, Bool-cases, arith,
}
use mathlib.Core.Option
use alma_lead_management_ser.Results.{
  Result, ok, err, integrity_error, Action, ◌>>=◌, ◌>>◌, raise_if, pure,
}
use alma_lead_management_ser.Models.{User, Lead, LeadState, pending, reached_out, state_eq}
use alma_lead_management_ser.Engine.{Engine, IsEngine, Db, user_fk}
use alma_lead_management_ser.Leads.{
  get_lead, update_lead_state, save_lead, with_state, cannot_revert,
}
use alma_lead_management_ser.Leads.Lookup.{get_lead_lem}
use alma_lead_management_ser.Leads.Transitions.{update_lead_state-reaches_out}

-- The column was read with this key in it.
abbrev pub read_as : Option ℕ → ℕ → Bool
read_as none k = false
read_as (some j) k = j == k

-- `UPDATE leads SET ... WHERE id = ...` with the columns that differ from the lead that was read, on
-- a row that may have changed since. The user is left out where the lead was read with that user. The
-- time is always sent: `now` is later than every time that was read.
abbrev pub patch : (now : ℕ) → User → (read row : Lead) → Lead
patch now user read row =
    if row.id == read.id
    then record row {
      state = if state_eq read.state reached_out then row.state else reached_out;
      updated_at = now;
      reached_out_at = some now;
      reached_out_by_id =
          if read_as read.reached_out_by_id user.id then row.reached_out_by_id else some user.id;
    }
    else row

-- A call of `update_lead_state` by its arguments.
pub record Request : Type 0 where
  pub now : ℕ
  pub new_state : LeadState
  pub user : User

module _ (E : Engine) where
  -- The first step: the lead as it is read.
  unfoldable pub read_for_update : (lead_id : ℕ) → LeadState → Action (Db E) Lead
  read_for_update lead_id new_state = do
    lead ← get_lead E lead_id
    raise_if (state_eq lead.state reached_out && state_eq new_state pending) cannot_revert
    pure lead

  -- The second step. A lead that was read as PENDING and is set to PENDING has no changed column, so
  -- nothing is sent.
  unfoldable pub send_update : (now : ℕ) → LeadState → User → (read : Lead) → Action (Db E) Lead
  send_update now pending user read db = (ok (with_state now pending user read), db)
  send_update now reached_out user read db =
      if user_fk E (some user.id) db
      then (
        ok (with_state now reached_out user read),
        record db { leads = E.leads.update_all (patch now user read) db.leads },
      )
      else (err integrity_error, db)

  abbrev finish : (now : ℕ) → LeadState → User → Result Lead → Action (Db E) Lead
  finish now new_state user (err e) db = (err e, db)
  finish now new_state user (ok read) db = send_update now new_state user read db

  -- Two requests for one lead that have both read it before either commits: the answer to each, and
  -- the database after the commit of the first and then of the second.
  unfoldable pub race :
      (lead_id : ℕ) → (first second : Request) → Db E → Result Lead × Result Lead × Db E
  race lead_id first second db =
      let a =
        finish first.now first.new_state first.user (read_for_update lead_id first.new_state db).0
          db in
      let b =
        finish second.now second.new_state second.user
          (read_for_update lead_id second.new_state db).0 a.1 in
      (a.0, b.0, b.1)

  -- The same requests one after the other.
  unfoldable pub in_turn :
      (lead_id : ℕ) → (first second : Request) → Db E → Result Lead × Result Lead × Db E
  in_turn lead_id first second db =
      let a = update_lead_state E first.now lead_id first.new_state first.user db in
      let b = update_lead_state E second.now lead_id second.new_state second.user a.1 in
      (a.0, b.0, b.1)
