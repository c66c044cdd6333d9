-- ===== src/Auth/Accounts.antt =====
-- What the account functions do to the table of users.
use alma_lead_management_ser.Common.{
  ℕ, ◌≡◌, refl, sym, ◌∙◌, ap, subst, true, false, Option, none, some, ◌==◌, if◌then◌else◌, Text,
  arith,
}
use mathlib.Core.Option
use alma_lead_management_ser.Results.{Result, ok, err, Error}
use alma_lead_management_ser.Models.{User, attorney}
use alma_lead_management_ser.Database.{Has}
use alma_lead_management_ser.Database.Members.{Has-All, Has-map, Has-map_inv}
use alma_lead_management_ser.Engine.{
  Engine, IsEngine, Db, delete_user_row, forget_reached_out_by, forget_user,
}
use alma_lead_management_ser.Auth.{
  deactivate_user, reactivate_user, delete_user, get_user, outranks, user_not_found,
  cannot_deactivate_self, only_admins_deactivate, already_deactivated, already_active,
  cannot_delete_self, only_admins_delete, list_active_attorney_emails, is_active_attorney,
}

-- The guards of `deactivate_user`, in their order, from what is found under the key.
abbrev pub deactivation_error : Option User → User → Option Error
deactivation_error none requesting = some user_not_found
deactivation_error (some user) requesting =
    if user.id == requesting.id
    then some cannot_deactivate_self
    else if outranks user requesting
    then some only_admins_deactivate
    else if user.is_active
    then none
    else some already_deactivated

-- The guards of `reactivate_user`.
abbrev pub reactivation_error : Option User → Option Error
reactivation_error none = some user_not_found
reactivation_error (some user) = if user.is_active then some already_active else none

-- The guards of `delete_user`, in their order.
abbrev pub deletion_error : Option User → User → Option Error
deletion_error none requesting = some user_not_found
deletion_error (some user) requesting =
    if user.id == requesting.id
    then some cannot_delete_self
    else if outranks user requesting
    then some only_admins_delete
    else none

module _ (E : Engine) (laws : IsEngine E) (db : Db E) where
  -- The table differs from `db` in one row.
  abbrev pub Changed : User → Db E → Type 0
  Changed u db' =
      ((j : ℕ) → E.users.get j db'.users ≡ (if j == u.id then some u else E.users.get j db.users))
      × (db'.leads ≡ db.leads)
      × (db'.audit_logs ≡ db.audit_logs)

  save_user-Changed :
      (k : ℕ) (u v : User)
      → E.users.get k db.users ≡ some u
      → v.id ≡ u.id
      → Changed v (record db { users = E.users.update v db.users })
  save_user-Changed k u v h same = (
    λ j. ground (arith, laws.users.get-update j v db.users, laws.users.id-get k db.users u h, h),
    refl,
    refl,
  )

  -- An unknown key gives 404; the requesting user itself, an administrator when the requesting user
  -- is none, and an account that is inactive are refused in this order. Nothing changes then.
  pub deactivate_user-refuses :
      (k : ℕ) (requesting : User) (e : Error)
      → deactivation_error (E.users.get k db.users) requesting ≡ some e
      → deactivate_user E k requesting db ≡ (err e, db)
  unfolding deactivate_user get_user
  deactivate_user-refuses k requesting e g = ground arith

  -- An account that is not refused becomes inactive, and nothing else changes.
  pub deactivate_user-deactivates :
      (k : ℕ) (requesting u : User)
      → E.users.get k db.users ≡ some u
      → deactivation_error (some u) requesting ≡ none
      → let (r, db') = deactivate_user E k requesting db in
        (r ≡ ok (record u { is_active = false })) × Changed (record u { is_active = false }) db'
  unfolding deactivate_user get_user
  deactivate_user-deactivates k requesting u h g =
      let v = record u { is_active = false } in
      let q : deactivate_user E k requesting db
          ≡ (ok v, record db { users = E.users.update v db.users }) =
        ground arith in
      (
        ap (λ (p : Result User × Db E). p.0) q,
        subst (λ (p : Result User × Db E). Changed v p.1) (sym q) (save_user-Changed k u v h refl),
      )

  -- An unknown key gives 404, an active account 400, and nothing changes.
  pub reactivate_user-refuses :
      (k : ℕ) (e : Error)
      → reactivation_error (E.users.get k db.users) ≡ some e
      → reactivate_user E k db ≡ (err e, db)
  unfolding reactivate_user get_user
  reactivate_user-refuses k e g = ground arith

  -- An inactive account becomes active, and nothing else changes.
  pub reactivate_user-reactivates :
      (k : ℕ) (u : User)
      → E.users.get k db.users ≡ some u
      → u.is_active ≡ false
      → let (r, db') = reactivate_user E k db in
        (r ≡ ok (record u { is_active = true })) × Changed (record u { is_active = true }) db'
  unfolding reactivate_user get_user
  reactivate_user-reactivates k u h g =
      let v = record u { is_active = true } in
      let q : reactivate_user E k db ≡ (ok v, record db { users = E.users.update v db.users }) =
        ground arith in
      (
        ap (λ (p : Result User × Db E). p.0) q,
        subst (λ (p : Result User × Db E). Changed v p.1) (sym q) (save_user-Changed k u v h refl),
      )

  -- An unknown key gives 404; the requesting user itself and an administrator when the requesting
  -- user is none are refused in this order. Nothing changes then.
  pub delete_user-refuses :
      (k : ℕ) (requesting : User) (e : Error)
      → deletion_error (E.users.get k db.users) requesting ≡ some e
      → delete_user E k requesting db ≡ (err e, db)
  unfolding delete_user get_user
  delete_user-refuses k requesting e g = ground arith

  -- An account that is not refused is gone and every other account stays; no lead and no audit entry
  -- is lost, and their references to the account become NULL.
  pub delete_user-deletes :
      (k : ℕ) (requesting u : User)
      → E.users.get k db.users ≡ some u
      → deletion_error (some u) requesting ≡ none
      → let (r, db') = delete_user E k requesting db in
        (r ≡ ok tt)
        × ((j : ℕ) → E.users.get j db'.users ≡ (if j == k then none else E.users.get j db.users))
        × ((j : ℕ)
            → E.leads.get j db'.leads
              ≡ Option.map (forget_reached_out_by k) (E.leads.get j db.leads))
        × ((j : ℕ)
            → E.audit_logs.get j db'.audit_logs
              ≡ Option.map (forget_user k) (E.audit_logs.get j db.audit_logs))
  unfolding delete_user get_user delete_user_row
  delete_user-deletes k requesting u h a =
      let same = laws.users.id-get k db.users u h in
      let q : delete_user E k requesting db ≡ (ok tt, delete_user_row E k db) = ground arith in
      (
        ap (λ (p : Result (Unit {0}) × Db E). p.0) q,
        (λ j.
            ap (λ (p : Result (Unit {0}) × Db E). E.users.get j p.1.users) q
            ∙ laws.users.get-delete j k db.users),
        (λ j.
            ap (λ (p : Result (Unit {0}) × Db E). E.leads.get j p.1.leads) q
            ∙ laws.leads.get-update_all j (forget_reached_out_by k) db.leads (λ l. refl)),
        (λ j.
            ap (λ (p : Result (Unit {0}) × Db E). E.audit_logs.get j p.1.audit_logs) q
            ∙ laws.audit_logs.get-update_all j (forget_user k) db.audit_logs (λ l. refl)),
      )

  -- The email of every active attorney is listed.
  pub list_active_attorney_emails_complete :
      (k : ℕ) (u : User)
      → E.users.get k db.users ≡ some u
      → u.role ≡ attorney
      → u.is_active ≡ true
      → Has u.email (list_active_attorney_emails E db)
  unfolding list_active_attorney_emails
  list_active_attorney_emails_complete k u h a b =
      Has-map (λ (v : User). v.email) u (E.users.find is_active_attorney db.users)
        (laws.users.Has-find is_active_attorney k db.users u h (ground arith))

  -- Every email that is listed is that of an active attorney.
  pub list_active_attorney_emails_sound :
      (email : Text)
      → Has email (list_active_attorney_emails E db)
      → (u : User) × (E.users.get u.id db.users ≡ some u)
        × (u.email ≡ email)
        × (u.role ≡ attorney)
        × (u.is_active ≡ true)
  unfolding list_active_attorney_emails
  list_active_attorney_emails_sound email m =
      let (u, mu, e) = Has-map_inv (λ (v : User). v.email) email _ m in
      let found = Has-All _ u _ mu (laws.users.find-All is_active_attorney db.users) in
      (u, found.0, e, ground arith, ground arith)
