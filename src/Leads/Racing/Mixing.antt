-- ===== src/Leads/Racing/Mixing.antt =====
-- A lost update: the user of one call of `update_lead_state` with the time of another.
use alma_lead_management_ser.Common.{ℕ, ◌≡◌, refl, ap, ◌∙◌, some, arith}
use mathlib.Core.Option
use alma_lead_management_ser.Models.{User, Lead, reached_out}
use alma_lead_management_ser.Engine.{Engine, IsEngine, Db}
use alma_lead_management_ser.Leads.{with_state, update_lead_state}
use alma_lead_management_ser.Leads.Transitions.{IsTracked}
use alma_lead_management_ser.Leads.Racing.{Request, race, in_turn, patch, send_update}
use alma_lead_management_ser.Leads.Racing.States.{patch_id, with_state-IsTracked}
use alma_lead_management_ser.Leads.Racing.Steps.{sent, alone, read_ok}

abbrev pub marks : (now : ℕ) → User → Request
marks now user = record { now = now; new_state = reached_out; user = user }

module _ (E : Engine) (laws : IsEngine E) where
  -- The UPDATE of a user with whom the lead was read leaves the user of the row as it is.
  patch_own :
      (now : ℕ) (user : User) (read row : Lead)
      → row.id ≡ read.id
      → read.state ≡ reached_out
      → row.state ≡ reached_out
      → read.reached_out_by_id ≡ some user.id
      → patch now user read row
        ≡ record (with_state now reached_out user row) { reached_out_by_id = row.reached_out_by_id }
  patch_own now user read row same out out' by = ground arith

  -- What the second step of such a user leaves of the lead.
  sent_own :
      (now : ℕ) (user u : User) (read row : Lead) (db : Db E)
      → E.users.get user.id db.users ≡ some u
      → E.leads.get read.id db.leads ≡ some row
      → read.state ≡ reached_out
      → row.state ≡ reached_out
      → read.reached_out_by_id ≡ some user.id
      → E.leads.get read.id (send_update E now reached_out user read db).1.leads
        ≡ some (record (with_state now reached_out user row) {
          reached_out_by_id = row.reached_out_by_id;
        })
  unfolding send_update
  sent_own now user u read row db known here out out' by =
      let same = laws.leads.id-get read.id db.leads row here in
      let kept = patch_own now user read row same out out' by in
      let updated =
        laws.leads.get-update_all read.id (patch now user read) db.leads (patch_id now user read) in
      rw (known) (updated ∙ ap (Option.map (patch now user read)) here ∙ ap (λ r. some r) kept)

  module _ (l : Lead) (db : Db E) (now now' : ℕ) (user user' u v : User)
      (here : E.leads.get l.id db.leads ≡ some l) (tracked : IsTracked l)
      (out : l.state ≡ reached_out) (known : E.users.get user.id db.users ≡ some u)
      (known' : E.users.get user'.id db.users ≡ some v)
      (own : l.reached_out_by_id ≡ some user'.id) where
    raced :
        let after = (send_update E now reached_out user l db).1 in
        (race E l.id (marks now user) (marks now' user') db).2
        ≡ (send_update E now' reached_out user' l after).1
    unfolding race
    raced = rw (read_ok E laws reached_out l db here (λ e. refl)) refl

    -- A lead is REACHED_OUT by a user who marks it again, while another user marks it too: both have
    -- read the lead before either commits, and the other one commits first. The lead ends with the
    -- user of the one and the time of the other. One after the other, each of the two orders leaves
    -- the user and the time of its second call.
    pub race-mixes :
        let raced_db = (race E l.id (marks now user) (marks now' user') db).2 in
        let one = (in_turn E l.id (marks now user) (marks now' user') db).2 in
        let other = (in_turn E l.id (marks now' user') (marks now user) db).2 in
        (E.leads.get l.id raced_db.leads
          ≡ some (record (with_state now' reached_out user l) { reached_out_by_id = some user.id }))
        × (E.leads.get l.id one.leads ≡ some (with_state now' reached_out user' l))
        × (E.leads.get l.id other.leads ≡ some (with_state now reached_out user l))
    unfolding in_turn
    race-mixes =
        let (first_answer, rows, users) =
          sent E laws now user u l l db known here (λ e. e) (λ e. e) in
        let after = (send_update E now reached_out user l db).1 in
        let m = with_state now reached_out user l in
        let (a₁, rows₁, users₁) =
          alone E laws now l.id reached_out user u l db known here tracked (λ e. refl) in
        let (a₂, rows₂, users₂) =
          alone E laws now' l.id reached_out user' v l db known' here tracked (λ e. refl) in
        (
          ap (λ (d : Db E). E.leads.get l.id d.leads) raced
              ∙ sent_own now' user' v l m after (ap (E.users.get user'.id) users ∙ known')
                  (rows l.id ∙ ground arith) out refl own,
          (alone E laws now' l.id reached_out user' v m
                  (update_lead_state E now l.id reached_out user db).1
                  (ap (E.users.get user'.id) users₁ ∙ known') (rows₁ l.id ∙ ground arith)
                  (with_state-IsTracked now reached_out user l tracked (λ e. refl)) (λ e. refl)).1
                l.id
              ∙ ground arith,
          (alone E laws now l.id reached_out user u (with_state now' reached_out user' l)
                  (update_lead_state E now' l.id reached_out user' db).1
                  (ap (E.users.get user.id) users₂ ∙ known) (rows₂ l.id ∙ ground arith)
                  (with_state-IsTracked now' reached_out user' l tracked (λ e. refl)) (λ e. refl)).1
                l.id
              ∙ ground arith,
        )
