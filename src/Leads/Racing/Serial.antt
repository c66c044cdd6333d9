-- ===== src/Leads/Racing/Serial.antt =====
-- Two overlapping calls of `update_lead_state` come out as the two calls in one of the two orders.
use alma_lead_management_ser.Common.{ℕ, ◌≡◌, some}
use alma_lead_management_ser.Results.{Result}
use alma_lead_management_ser.Models.{User, Lead}
use alma_lead_management_ser.Engine.{Engine, IsEngine, Db}
use alma_lead_management_ser.Leads.{update_lead_state, with_state}
use alma_lead_management_ser.Leads.Transitions.{IsTracked}
use alma_lead_management_ser.Leads.Racing.{finish, Request}

module _ (E : Engine) where
  -- The same answers, and the same rows in the table of leads.
  abbrev pub SameOutcome : (x y : Result Lead × Result Lead × Db E) → Type 0
  SameOutcome (a, b, db) (a', b', db') =
      (a ≡ a') × (b ≡ b') × ((j : ℕ) → E.leads.get j db.leads ≡ E.leads.get j db'.leads)

  -- The outcome of the second order, with the answer to the first request first.
  abbrev pub swapped : Result Lead × Result Lead × Db E → Result Lead × Result Lead × Db E
  swapped (a, b, db) = (b, a, db)

module _ (E : Engine) (laws : IsEngine E) where
  -- A race from what the two requests have read.
  race_from :
      (first second : Request) → (a b : Result Lead) → Db E → Result Lead × Result Lead × Db E
  race_from first second a b db =
      let x = finish E first.now first.new_state first.user a db in
      let y = finish E second.now second.new_state second.user b x.1 in (x.0, y.0, y.1)

  module _ (l : Lead) (db : Db E) (first second : Request) (u v : User)
      (here : E.leads.get l.id db.leads ≡ some l) (tracked : IsTracked l)
      (known : E.users.get first.user.id db.users ≡ some u)
      (known' : E.users.get second.user.id db.users ≡ some v)
      (apart : l.reached_out_by_id ≡ some second.user.id → first.user.id ≡ second.user.id) where
    abbrev moved : Lead
    moved = with_state first.now first.new_state first.user l

    abbrev alone_second : Result Lead × Db E → Result Lead × Result Lead × Db E
    alone_second (a, db') =
        let b = update_lead_state E second.now l.id second.new_state second.user db' in
        (a, b.0, b.1)
