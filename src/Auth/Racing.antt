-- ===== src/Auth/Racing.antt =====
-- `register_user` of app/services/auth_service.py where another request commits between its query and
-- its own commit.
use alma_lead_management_ser.Common.{
  ℕ, ◌≡◌, refl, inl, inr, Option, none, some, if◌then◌else◌, Text, text_eq_iff, ◌∙◌, ap, sym, subst,
  Option-cases, arith,
}
use alma_lead_management_ser.Results.{Result, ok, err, integrity_error}
use alma_lead_management_ser.Models.{User, UserRole, new_user}
use alma_lead_management_ser.Engine.{Engine, IsEngine, Db, is_some}
use alma_lead_management_ser.Security.{Crypto, hash_password}
use alma_lead_management_ser.Auth.{user_by_email, add_user, register_user, email_registered}
use alma_lead_management_ser.Auth.Lookup.{UniqueEmails, Unregistered, user_by_email_missing}
use alma_lead_management_ser.Auth.Register.{free_row, register_user-refuses, insert-UniqueEmails}

module _ (E : Engine) where
  abbrev add_unless : User → Result (Option User) → Db E → Result User × Db E
  add_unless u (err e) db = (err e, db)
  add_unless u (ok existing) db =
      if is_some existing then (err email_registered, db) else add_user E u db

  -- The query runs on the database `read`, the commit on `db`.
  unfoldable pub register_user_late :
      Crypto
      → (fresh_id now : ℕ) → (salt email password : Text) → UserRole
      → (read db : Db E) → Result User × Db E
  register_user_late C fresh_id now salt email password role read db =
      add_unless (new_user fresh_id now email (hash_password C salt password) role)
        (user_by_email E email read).0 db

  -- With nothing in between, this is `register_user`.
  pub register_user_late-agrees :
      (C : Crypto) (fresh_id now : ℕ) (salt email password : Text) (role : UserRole) (db : Db E)
      → register_user_late C fresh_id now salt email password role db db
        ≡ register_user E C fresh_id now salt email password role db
  unfolding register_user_late register_user user_by_email
  register_user_late-agrees C fresh_id now salt email password role db = ground arith

module _ (E : Engine) (laws : IsEngine E) where
  -- A row with the email of a stored row is not inserted.
  insert-taken :
      (v u : User) (users : E.users.Store)
      → E.users.get u.id users ≡ some u
      → v.email ≡ u.email
      → E.users.insert v users ≡ none
  insert-taken v u users here same = elim (Option-cases (E.users.insert v users)) [
    | inl e ↦ e
    | inr (users', e) ↦ absurd (
        ground (
          arith,
          laws.users.insert-unique u.id v u users users' e here,
          text_eq_iff v.email u.email,
        ))
  ]

  -- Where emails are unique, of two registrations with one free email, which have both run their
  -- query before either commits, the first, with a fresh key, is stored, and the second raises an
  -- IntegrityError and changes nothing; the same request after the first would be refused with
  -- 400.
  pub register_user-race :
      (C : Crypto) (email : Text) (fresh_id fresh_id' now now' : ℕ)
      (salt salt' password password' : Text)
      → (role role' : UserRole) (db : Db E) → UniqueEmails E db
      → Unregistered E email db
      → E.users.get fresh_id db.users ≡ none
      → let a = register_user_late E C fresh_id now salt email password role db db in
        let b = register_user_late E C fresh_id' now' salt' email password' role' db a.1 in
        (a.0 ≡ ok (new_user fresh_id now email (hash_password C salt password) role))
        × (b ≡ (err integrity_error, a.1))
        × (register_user E C fresh_id' now' salt' email password' role' a.1
            ≡ (err email_registered, a.1))
  unfolding register_user_late
  register_user-race C email fresh_id fresh_id' now now' salt salt' password password' role role' db
        unique free fresh =
      let u = new_user fresh_id now email (hash_password C salt password) role in
      let v = new_user fresh_id' now' email (hash_password C salt' password') role' in
      let (users, e) = laws.users.insert-some u db.users (free_row E laws u db fresh free) in
      let looked = user_by_email_missing E laws db email free in
      let stored : E.users.get fresh_id users ≡ some u =
        laws.users.get-insert fresh_id u db.users users e ∙ ground arith in
      let db' : Db E = record db { users = users } in
      let first : register_user_late E C fresh_id now salt email password role db db ≡ (ok u, db') =
        ground (arith, looked, e) in
      let left = ap (λ (r : Result User × Db E). r.1) first in
      let taken = insert-taken v u users stored refl in
      let unique' = insert-UniqueEmails E laws u db users e unique in
      (
        ap (λ (r : Result User × Db E). r.0) first,
        subst
            (λ d.
              register_user_late E C fresh_id' now' salt' email password' role' db d
              ≡ (err integrity_error, d))
            (sym left) (ground (arith, looked, taken)),
        subst
            (λ d.
              register_user E C fresh_id' now' salt' email password' role' d
              ≡ (err email_registered, d))
            (sym left)
            (register_user-refuses E laws C fresh_id' now' salt' email password' role' db' unique'
              fresh_id u stored refl),
      )
