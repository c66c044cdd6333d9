-- ===== src/Effects/Running.antt =====
-- Any sequence of calls of the service functions that write, in the order in which they commit. The
-- users that make the requests are any records: they may be out of date by the time of the call.
use alma_lead_management_ser.Common.{
  ℕ, ◌≡◌, ◌∙◌, refl, sym, ◌⊎◌, inl, inr, List, [], ◌∷◌, Text, some, none, arith,
}
use alma_lead_management_ser.Models.{User, UserRole, Lead, LeadState, AuditLog}
use alma_lead_management_ser.Engine.{Engine, IsEngine, Db}
use alma_lead_management_ser.Security.{Crypto}
use alma_lead_management_ser.Auth.{register_user, deactivate_user, reactivate_user, delete_user}
use alma_lead_management_ser.Auth.Lookup.{UniqueEmails}
use alma_lead_management_ser.Leads.{create_lead, update_lead_state}
use alma_lead_management_ser.Audit.Tracker.{AuditFailureTracker}
use alma_lead_management_ser.Audit.Log.{Action, Surroundings, record_action}
use alma_lead_management_ser.Effects.{History, here, next, Effect}
use alma_lead_management_ser.Effects.Services.{
  register_user-Effect, deactivate_user-Effect, reactivate_user-Effect, delete_user-Effect,
  create_lead-Effect, update_lead_state-Effect, record_action-Effect,
}
use alma_lead_management_ser.Effects.Accounts.{History-UniqueEmails}
use alma_lead_management_ser.Effects.Leads.{
  Follows, AllTracked, History-Follows, History-AllTracked,
}
use alma_lead_management_ser.Effects.Trail.{SameButUser, Effect-Told}

pub data Call : Type 0 where
  registers : (fresh_id now : ℕ) → (salt email password : Text) → UserRole → Call
  deactivates deletes : (user_id : ℕ) → (requesting_user : User) → Call
  reactivates : (user_id : ℕ) → Call
  creates : (fresh_id now : ℕ) → (first_name last_name email resume_path : Text) → Call
  moves : (now lead_id : ℕ) → LeadState → User → Call
  records : Surroundings → Action → AuditFailureTracker → Call

module _ (E : Engine) (C : Crypto) where
  -- The database after a call, whether it returned or raised.
  abbrev pub run : Call → Db E → Db E
  run (registers fresh_id now salt email password role) db =
      (register_user E C fresh_id now salt email password role db).1
  run (deactivates k requesting) db = (deactivate_user E k requesting db).1
  run (deletes k requesting) db = (delete_user E k requesting db).1
  run (reactivates k) db = (reactivate_user E k db).1
  run (creates fresh_id now first last email path) db =
      (create_lead E fresh_id now first last email path db).1
  run (moves now k s user) db = (update_lead_state E now k s user db).1
  run (records env a tracker) db =
      (record_action E env a (record { db = db; tracker = tracker })).0.db

  abbrev pub run_all : List Call → Db E → Db E
  run_all [] db = db
  run_all (c ∷ cs) db = run_all cs (run c db)

  module _ (laws : IsEngine E) where
    run-Effect : (c : Call) (db : Db E) → Effect E db (run c db)
    run-Effect (registers fresh_id now salt email password role) db =
        register_user-Effect E db C fresh_id now salt email password role
    run-Effect (deactivates k requesting) db = deactivate_user-Effect E db k requesting
    run-Effect (deletes k requesting) db = delete_user-Effect E db k requesting
    run-Effect (reactivates k) db = reactivate_user-Effect E db k
    run-Effect (creates fresh_id now first last email path) db =
        create_lead-Effect E db fresh_id now first last email path
    run-Effect (moves now k s user) db = update_lead_state-Effect E db laws now k s user
    run-Effect (records env a tracker) db =
        record_action-Effect E env a (record { db = db; tracker = tracker })

    run_all-extends :
        (cs : List Call) (start db : Db E) → History E start db → History E start (run_all cs db)
    run_all-extends [] start db past = past
    run_all-extends (c ∷ cs) start db past =
        run_all-extends cs start (run c db) (next past (run-Effect c db))

    run_all-History : (cs : List Call) (db : Db E) → History E db (run_all cs db)
    run_all-History cs db = run_all-extends cs db db here

    -- Whatever calls of the services are made, in whatever order they commit: no two accounts share
    -- an email, if none did at the start.
    pub run_all-UniqueEmails :
        (cs : List Call) (db : Db E) → UniqueEmails E db → UniqueEmails E (run_all cs db)
    run_all-UniqueEmails cs db h = History-UniqueEmails E laws h (run_all-History cs db)

    -- A lead that is stored stays stored under its key through any calls of the services, with the
    -- prospect's data unchanged, and it never goes back from REACHED_OUT to PENDING.
    pub run_all-Follows :
        (cs : List Call) (db : Db E) (k : ℕ) (l : Lead)
        → E.leads.get k db.leads ≡ some l
        → (m : Lead) × (E.leads.get k (run_all cs db).leads ≡ some m) × Follows l m
    run_all-Follows cs db k l h = History-Follows E laws k l h (run_all-History cs db)

    -- After any calls of the services each lead that is PENDING carries no contact and each that is
    -- REACHED_OUT carries the time of its contact, if that was so at the start; that holds across the
    -- deletion of accounts.
    pub run_all-AllTracked :
        (cs : List Call) (db : Db E) → AllTracked E db → AllTracked E (run_all cs db)
    run_all-AllTracked cs db h = History-AllTracked E laws h (run_all-History cs db)

    -- After some of the calls, or before all of them, the account is not stored.
    abbrev pub Gone : ℕ → List Call → Db E → Type 0
    Gone j [] db = E.users.get j db.users ≡ none
    Gone j (c ∷ cs) db = (E.users.get j db.users ≡ none) ⊎ Gone j cs (run c db)

    Gone-now : (j : ℕ) (cs : List Call) (db : Db E) → E.users.get j db.users ≡ none → Gone j cs db
    Gone-now j [] db h = h
    Gone-now j (c ∷ cs) db h = inl h

    -- An audit entry that is stored stays stored under its key through any calls of the services and
    -- keeps every field, its user included, unless the account of this user was not stored at some
    -- point on the way: then the user may have become NULL.
    pub run_all-SameEntry :
        (cs : List Call) (db : Db E) (k : ℕ) (a : AuditLog)
        → E.audit_logs.get k db.audit_logs ≡ some a
        → (b : AuditLog) × (E.audit_logs.get k (run_all cs db).audit_logs ≡ some b)
          × SameButUser a b
          × ((b.user_id ≡ a.user_id)
              ⊎ ((b.user_id ≡ none) × ((j : ℕ) × (a.user_id ≡ some j) × Gone j cs db)))
    run_all-SameEntry [] db k a h = (a, h, refl, inl refl)
    run_all-SameEntry (c ∷ cs) db k a h =
        let (b, hb, same, user) = Effect-Told E laws k a (run-Effect c db) h in
        let (d, hd, same', user') = run_all-SameEntry cs (run c db) k b hb in
        (
          d,
          hd,
          ground arith,
          elim user [
            | inl kept ↦ elim user' [
              | inl kept' ↦ inl (kept' ∙ kept)
              | inr (null, (j, named, gone)) ↦ inr (null, (j, sym kept ∙ named, inr gone))
            ]
            | inr (null, (j, named, gone)) ↦ inr (
              elim user' [ inl kept' ↦ kept' ∙ null | inr (null', _) ↦ null' ],
              (j, named, inr (Gone-now j cs (run c db) gone)),
            )
          ],
        )
