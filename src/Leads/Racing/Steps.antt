-- ===== src/Leads/Racing/Steps.antt =====
-- The steps of `update_lead_state`: what each answers and what it leaves under each key.
use alma_lead_management_ser.Common.{
  ℕ, ◌≡◌, refl, sym, ap, ◌∙◌, inl, inr, true, some, ◌==◌, if◌then◌else◌, Option-cases, Bool-cases,
  arith,
}
use alma_lead_management_ser.Results.{Result, ok, err}
use alma_lead_management_ser.Models.{User, Lead, LeadState, pending, reached_out}
use alma_lead_management_ser.Engine.{Engine, IsEngine, Db, user_fk}
use alma_lead_management_ser.Leads.{update_lead_state, with_state, cannot_revert}
use alma_lead_management_ser.Leads.Lookup.{get_lead_lem}
use alma_lead_management_ser.Leads.Transitions.{
  IsTracked, update_found, get_saved, update_lead_state-refuses,
}
use alma_lead_management_ser.Leads.Racing.{patch, read_for_update, send_update}
use alma_lead_management_ser.Leads.Racing.States.{
  patch-here, patch_id, still_pending, no_revert, with_state-id, with_state-pending,
}

module _ (E : Engine) (laws : IsEngine E) where
  pub patched :
      (now j : ℕ) (user : User) (read row : Lead) (db : Db E)
      → E.leads.get read.id db.leads ≡ some row
      → (read.state ≡ reached_out → row.state ≡ reached_out)
      → (read.reached_out_by_id ≡ some user.id → row.reached_out_by_id ≡ some user.id)
      → E.leads.get j (E.leads.update_all (patch now user read) db.leads) ≡ (
          if j == read.id
          then some (with_state now reached_out user row)
          else E.leads.get j db.leads)
  patched now j user read row db here kept kept_user =
      laws.leads.get-update_all j (patch now user read) db.leads (patch_id now user read)
      ∙ elim (Option-cases (E.leads.get j db.leads)) [
        | inl e ↦ ground arith
        | inr (r, e) ↦ elim (Bool-cases (j == read.id)) [
          | inl q ↦ ground (
            arith,
            patch-here now user read row (laws.leads.id-get read.id db.leads row here) kept
                kept_user,
          )
          | inr q ↦ ground (arith, laws.leads.id-get j db.leads r e)
        ]
      ]

  -- What the second step leaves under each key where it marks the lead, whose row is now `row`.
  pub sent :
      (now : ℕ) (user u : User) (read row : Lead) (db : Db E)
      → E.users.get user.id db.users ≡ some u
      → E.leads.get read.id db.leads ≡ some row
      → (read.state ≡ reached_out → row.state ≡ reached_out)
      → (read.reached_out_by_id ≡ some user.id → row.reached_out_by_id ≡ some user.id)
      → let (r, db') = send_update E now reached_out user read db in
        (r ≡ ok (with_state now reached_out user read))
        × ((j : ℕ)
            → E.leads.get j db'.leads ≡ (
                if j == read.id
                then some (with_state now reached_out user row)
                else E.leads.get j db.leads))
        × (db'.users ≡ db.users)
  unfolding send_update
  sent now user u read row db known here kept kept_user = (
    ground (arith, known),
    (λ j. ground (arith, known, patched now j user read row db here kept kept_user)),
    ground (arith, known),
  )

  -- A call that is let through answers with the changed lead and leaves it under the key.
  abbrev pub Moves :
      (now k : ℕ) → LeadState → User → (read row : Lead) → Db E → Result Lead × Db E → Type 0
  Moves now k s user read row db (r, db') =
      (r ≡ ok (with_state now s user read))
      × ((j : ℕ)
          → E.leads.get j db'.leads
            ≡ (if j == k then some (with_state now s user row) else E.leads.get j db.leads))
      × (db'.users ≡ db.users)

  pub with_state-known :
      (now : ℕ) (s : LeadState) (user u : User) (l : Lead) (db : Db E)
      → E.users.get user.id db.users ≡ some u
      → IsTracked l
      → (l.state ≡ reached_out → s ≡ reached_out)
      → user_fk E (with_state now s user l).reached_out_by_id db ≡ true
  with_state-known now pending user u l db known tracked allowed =
      ground (arith, tracked.0, allowed)
  with_state-known now reached_out user u l db known tracked allowed = ground (arith, known)

  pub alone :
      (now k : ℕ) (s : LeadState) (user u : User) (l : Lead) (db : Db E)
      → E.users.get user.id db.users ≡ some u
      → E.leads.get k db.leads ≡ some l
      → IsTracked l
      → (l.state ≡ reached_out → s ≡ reached_out)
      → Moves now k s user l l db (update_lead_state E now k s user db)
  alone now k s user u l db known here tracked allowed =
      let m = with_state now s user l in
      let q : update_lead_state E now k s user db
          ≡ (ok m, record db { leads = E.leads.update m db.leads }) =
        update_found E laws db now k s user l here allowed
        ∙ ground (arith, with_state-known now s user u l db known tracked allowed) in
      (
        ap (λ (p : Result Lead × Db E). p.0) q,
        λ j.
            ap (λ (p : Result Lead × Db E). E.leads.get j p.1.leads) q
            ∙ get_saved E laws db k j l m here (with_state-id now s user l),
        ap (λ (p : Result Lead × Db E). p.1.users) q,
      )

  -- The second step on a database in which another request may have marked the lead.
  pub late :
      (now : ℕ) (s : LeadState) (user u : User) (read row : Lead) (db : Db E)
      → E.users.get user.id db.users ≡ some u
      → E.leads.get read.id db.leads ≡ some row
      → (s ≡ pending → (read.state ≡ pending) × (row ≡ read))
      → (read.state ≡ reached_out → row.state ≡ reached_out)
      → (read.reached_out_by_id ≡ some user.id → row.reached_out_by_id ≡ some user.id)
      → Moves now read.id s user read row db (send_update E now s user read db)
  unfolding send_update
  late now pending user u read row db known here idle kept kept_user =
      let (state, same) = idle refl in
      let unchanged = with_state-pending now user read state in
      (
        refl,
        (λ j. elim (Bool-cases (j == read.id)) [
          | inl e ↦ ground (arith, unchanged)
          | inr e ↦ ground arith
        ]),
        refl,
      )
  late now reached_out user u read row db known here idle kept kept_user =
      let (answer, rows, users) = sent now user u read row db known here kept kept_user in
      (answer, rows, users)

  pub read_ok :
      (s : LeadState) (l : Lead) (db : Db E)
      → E.leads.get l.id db.leads ≡ some l
      → (l.state ≡ reached_out → s ≡ reached_out)
      → (read_for_update E l.id s db).0 ≡ ok l
  unfolding read_for_update
  read_ok s l db here allowed = ground (arith, get_lead_lem E laws l.id db, no_revert l s allowed)

  pub read_refused :
      (l : Lead) (db : Db E)
      → E.leads.get l.id db.leads ≡ some l
      → l.state ≡ reached_out
      → (s : LeadState) → s ≡ pending
      → (read_for_update E l.id s db).0 ≡ err cannot_revert
  unfolding read_for_update
  read_refused l db here e s stays = ground (arith, get_lead_lem E laws l.id db)

  pub refuses :
      (now k : ℕ) (s : LeadState) (user : User) (m : Lead) (db : Db E)
      → E.leads.get k db.leads ≡ some m
      → m.state ≡ reached_out
      → s ≡ pending
      → update_lead_state E now k s user db ≡ (err cannot_revert, db)
  refuses now k s user m db here e stays =
      update_lead_state-refuses E laws db now k s user cannot_revert (ground arith)

  pub sent_idle :
      (now : ℕ) (s : LeadState) (user : User) (read : Lead) (db : Db E)
      → s ≡ pending
      → send_update E now s user read db ≡ (ok (with_state now s user read), db)
  unfolding send_update
  sent_idle now pending user read db e = refl
  sent_idle now reached_out user read db e = absurd (ground arith)

  -- With nothing in between, the two steps are `update_lead_state`, as far as the answer and the leads go.
  pub send_update-agrees :
      (now : ℕ) (s : LeadState) (user u : User) (l : Lead) (db : Db E)
      → E.users.get user.id db.users ≡ some u
      → E.leads.get l.id db.leads ≡ some l
      → IsTracked l
      → (l.state ≡ reached_out → s ≡ reached_out)
      → let (r, db') = send_update E now s user l db in
        let (r', db'') = update_lead_state E now l.id s user db in
        (r ≡ r') × ((j : ℕ) → E.leads.get j db'.leads ≡ E.leads.get j db''.leads)
  send_update-agrees now s user u l db known here tracked allowed =
      let (answer, rows, users) =
        late now s user u l l db known here (λ e. (still_pending l s allowed e, refl)) (λ e. e)
          (λ e. e) in
      let (answer', rows', users') = alone now l.id s user u l db known here tracked allowed in
      (answer ∙ sym answer', (λ j. rows j ∙ sym (rows' j)))
