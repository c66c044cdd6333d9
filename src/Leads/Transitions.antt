-- ===== src/Leads/Transitions.antt =====
-- The life of a lead: PENDING, then REACHED_OUT.
use alma_lead_management_ser.Common.{
  ℕ, ◌≡◌, ◌≢◌, refl, ap, ◌∙◌, inl, inr, ◌⊎◌, true, false, ◌&&◌, Option, none, some, ◌==◌,
  if◌then◌else◌, Option-cases, Bool-cases, arith,
}
use alma_lead_management_ser.Results.{Result, ok, err, Error}
use alma_lead_management_ser.Models.{User, Lead, LeadState, pending, reached_out, state_eq}
use alma_lead_management_ser.Engine.{Engine, IsEngine, Db, user_fk}
use alma_lead_management_ser.Leads.{
  update_lead_state, save_lead, with_state, lead_not_found, cannot_revert,
}
use alma_lead_management_ser.Leads.Lookup.{get_lead_lem}

-- A lead that is PENDING has no trace of a contact, and one that is REACHED_OUT has its time.
abbrev pub IsTracked : Lead → Type 0
IsTracked l =
    (l.state ≡ pending → (l.reached_out_at ≡ none) × (l.reached_out_by_id ≡ none))
    × (l.state ≡ reached_out → l.reached_out_at ≢ none)

-- The guards of `update_lead_state`, from what is found under the key.
abbrev pub transition_error : Option Lead → LeadState → Option Error
transition_error none s = some lead_not_found
transition_error (some l) s =
    if state_eq l.state reached_out && state_eq s pending then some cannot_revert else none

-- What no operation on a lead changes.
abbrev pub SameProspect : Lead → Lead → Type 0
SameProspect l m =
    (m.id ≡ l.id)
    × (m.first_name ≡ l.first_name)
    × (m.last_name ≡ l.last_name)
    × (m.email ≡ l.email)
    × (m.resume_path ≡ l.resume_path)
    × (m.created_at ≡ l.created_at)

may_move :
    (l : Lead) (s : LeadState)
    → (state_eq l.state reached_out && state_eq s pending) ≡ false
    → l.state ≡ reached_out
    → s ≡ reached_out
may_move l s h e = ground arith

module _ (E : Engine) (laws : IsEngine E) (db : Db E) where
  pub update_found :
      (now k : ℕ) (s : LeadState) (user : User) (l : Lead)
      → E.leads.get k db.leads ≡ some l
      → (l.state ≡ reached_out → s ≡ reached_out)
      → update_lead_state E now k s user db ≡ save_lead E (with_state now s user l) db
  unfolding update_lead_state
  update_found now k s user l h ok_step = ground (arith, get_lead_lem E laws k db)

  pub get_saved :
      (k j : ℕ) (l m : Lead)
      → E.leads.get k db.leads ≡ some l
      → m.id ≡ l.id
      → E.leads.get j (E.leads.update m db.leads)
        ≡ (if j == k then some m else E.leads.get j db.leads)
  get_saved k j l m h same =
      ground (arith, laws.leads.get-update j m db.leads, laws.leads.id-get k db.leads l h, h)

  -- An unknown key gives 404, and a lead that was reached out to is never set back to PENDING: 400.
  -- The database stays as it was.
  pub update_lead_state-refuses :
      (now k : ℕ) (s : LeadState) (user : User) (e : Error)
      → transition_error (E.leads.get k db.leads) s ≡ some e
      → update_lead_state E now k s user db ≡ (err e, db)
  unfolding update_lead_state
  update_lead_state-refuses now k s user e h = ground (arith, get_lead_lem E laws k db)

  refused_outcome :
      (now k : ℕ) (s : LeadState) (user : User) (l : Lead)
      → E.leads.get k db.leads ≡ some l
      → (state_eq l.state reached_out && state_eq s pending) ≡ true
      → (update_lead_state E now k s user db).1 ≡ db
  unfolding update_lead_state
  refused_outcome now k s user l h refused = ground (arith, get_lead_lem E laws k db)

  found_outcome :
      (now k : ℕ) (s : LeadState) (user : User) (l : Lead)
      → E.leads.get k db.leads ≡ some l
      → let db' = (update_lead_state E now k s user db).1 in
        (db' ≡ db)
        ⊎ ((l : Lead) × (E.leads.get k db.leads ≡ some l)
            × (l.state ≡ reached_out → s ≡ reached_out)
            × (db' ≡ record db { leads = E.leads.update (with_state now s user l) db.leads }))
  found_outcome now k s user l h =
      elim (Bool-cases (state_eq l.state reached_out && state_eq s pending)) [
        | inl refused ↦ inl (refused_outcome now k s user l h refused)
        | inr allowed ↦
            let forward = may_move l s allowed in
            let m = with_state now s user l in
            let q = ap (λ (p : Result Lead × Db E). p.1) (update_found now k s user l h forward) in
            elim (Bool-cases (user_fk E m.reached_out_by_id db)) [
              | inl known ↦ inr (l, h, forward, q ∙ ground arith)
              | inr unknown ↦ inl (q ∙ ground arith)
            ]
      ]

  -- A user of the database marks any lead as REACHED_OUT, from either state: the row takes the state,
  -- the time and the user, keeps the prospect's data, and every other lead, all users and all audit
  -- entries stay as they were.
  pub update_lead_state-reaches_out :
      (now k j : ℕ) (user u : User) (l : Lead)
      → E.leads.get k db.leads ≡ some l
      → E.users.get user.id db.users ≡ some u
      → let m = with_state now reached_out user l in
        let (r, db') = update_lead_state E now k reached_out user db in
        (r ≡ ok m)
        × (m.state ≡ reached_out)
        × (m.reached_out_at ≡ some now)
        × (m.reached_out_by_id ≡ some user.id)
        × SameProspect l m
        × (E.leads.get j db'.leads ≡ (if j == k then some m else E.leads.get j db.leads))
        × (db'.users ≡ db.users)
        × (db'.audit_logs ≡ db.audit_logs)
  update_lead_state-reaches_out now k j user u l h known =
      let m = with_state now reached_out user l in
      let q : update_lead_state E now k reached_out user db
          ≡ (ok m, record db { leads = E.leads.update m db.leads }) =
        update_found now k reached_out user l h (λ _. refl) ∙ ground (arith, known) in
      (
        ap (λ (p : Result Lead × Db E). p.0) q,
        refl,
        refl,
        refl,
        (refl, refl, refl, refl, refl, refl),
        ap (λ (p : Result Lead × Db E). E.leads.get j p.1.leads) q ∙ get_saved k j l m h refl,
        ap (λ (p : Result Lead × Db E). p.1.users) q,
        ap (λ (p : Result Lead × Db E). p.1.audit_logs) q,
      )

  -- What a call of `update_lead_state` can do to the database.
  pub update_lead_state-outcome :
      (now k : ℕ) (s : LeadState) (user : User)
      → let db' = (update_lead_state E now k s user db).1 in
        (db' ≡ db)
        ⊎ ((l : Lead) × (E.leads.get k db.leads ≡ some l)
            × (l.state ≡ reached_out → s ≡ reached_out)
            × (db' ≡ record db { leads = E.leads.update (with_state now s user l) db.leads }))
  update_lead_state-outcome now k s user = elim (Option-cases (E.leads.get k db.leads)) [
    | inl h ↦ inl (
        ap (λ (p : Result Lead × Db E). p.1)
          (update_lead_state-refuses now k s user lead_not_found (ground arith)))
    | inr (l, h) ↦ found_outcome now k s user l h
  ]
