-- ===== src/Auth/Register.antt =====
-- What `register_user` does, and that emails stay unique.
use alma_lead_management_ser.Common.{
  ◌⊎◌, ℕ, ◌≡◌, sym, inl, inr, false, none, some, ◌==◌, if◌then◌else◌, Text, text_eq_iff,
  Option-cases, arith,
}
use alma_lead_management_ser.Results.{ok, err}
use alma_lead_management_ser.Models.{User, UserRole, new_user}
use alma_lead_management_ser.Engine.{Engine, IsEngine, Db, user_clash}
use alma_lead_management_ser.Security.{Crypto, hash_password}
use alma_lead_management_ser.Auth.{user_by_email, add_user, register_user, email_registered}
use alma_lead_management_ser.Auth.Lookup.{
  UniqueEmails, Unregistered, user_by_email_found, user_by_email_missing, user_by_email-cases,
}

module _ (E : Engine) (db : Db E) where
  -- What a call of `register_user` can do to the database.
  pub register_user-outcome :
      (C : Crypto) (fresh_id now : ℕ) (salt email password : Text) (role : UserRole)
      → let u = new_user fresh_id now email (hash_password C salt password) role in
        let db' = (register_user E C fresh_id now salt email password role db).1 in
        (db' ≡ db) ⊎ (db' ≡ (add_user E u db).1)
  unfolding register_user user_by_email
  register_user-outcome C fresh_id now salt email password role = ground arith

module _ (E : Engine) (laws : IsEngine E) where
  pub free_row :
      (u : User) (db : Db E)
      → E.users.get u.id db.users ≡ none
      → Unregistered E u.email db
      → (k : ℕ) (v : User) → E.users.get k db.users ≡ some v
      → user_clash u v ≡ false
  free_row u db fresh free k v h = ground (
    arith,
    laws.users.id-get k db.users v h,
    λ (e : u.email ≡ v.email). free k v h (sym e),
    text_eq_iff u.email v.email,
    text_eq_iff v.email u.email,
  )

  -- A row whose insert succeeded had an email of its own.
  pub insert-UniqueEmails :
      (u : User) (db : Db E) (users : E.users.Store)
      → E.users.insert u db.users ≡ some users
      → UniqueEmails E db
      → UniqueEmails E (record db { users = users })
  insert-UniqueEmails u db users e unique j k v w hv hw same = ground (
    arith,
    laws.users.get-insert j u db.users users e,
    laws.users.get-insert k u db.users users e,
    laws.users.insert-unique j u v db.users users e,
    laws.users.insert-unique k u w db.users users e,
    unique j k v w,
    text_eq_iff u.email v.email,
    text_eq_iff u.email w.email,
  )

  pub add_user-UniqueEmails :
      (u : User) (db : Db E) → UniqueEmails E db → UniqueEmails E (add_user E u db).1
  add_user-UniqueEmails u db unique = elim (Option-cases (E.users.insert u db.users)) [
    | inl e ↦ rw e unique
    | inr (users, e) ↦ rw e (insert-UniqueEmails u db users e unique)
  ]

  module _ (C : Crypto) (fresh_id now : ℕ) (salt email password : Text) (role : UserRole)
      (db : Db E) where
    register_user_free :
        user_by_email E email db ≡ (ok none, db)
        → register_user E C fresh_id now salt email password role db
          ≡ add_user E (new_user fresh_id now email (hash_password C salt password) role) db
    unfolding register_user
    register_user_free looked = ground (arith, looked)

    register_user_taken :
        (u : User)
        → user_by_email E email db ≡ (ok (some u), db)
        → register_user E C fresh_id now salt email password role db ≡ (err email_registered, db)
    unfolding register_user
    register_user_taken u looked = ground (arith, looked)

    -- A free email and a fresh key: the account is stored as requested and active, and all other rows
    -- stay as they were.
    pub register_user-registers :
        E.users.get fresh_id db.users ≡ none
        → Unregistered E email db
        → let u = new_user fresh_id now email (hash_password C salt password) role in
          let (r, db') = register_user E C fresh_id now salt email password role db in
          (r ≡ ok u)
          × ((k : ℕ)
              → E.users.get k db'.users
                ≡ (if k == fresh_id then some u else E.users.get k db.users))
          × (db'.leads ≡ db.leads)
          × (db'.audit_logs ≡ db.audit_logs)
    unfolding register_user
    register_user-registers fresh free =
        let u = new_user fresh_id now email (hash_password C salt password) role in
        let (users, e) = laws.users.insert-some u db.users (free_row u db fresh free) in
        let looked = user_by_email_missing E laws db email free in
        (
          ground (arith, looked, e),
          (λ k. ground (arith, looked, e, laws.users.get-insert k u db.users users e)),
          ground (arith, looked, e),
          ground (arith, looked, e),
        )

    -- Where emails are unique, a registration with the email of an account is refused, and nothing
    -- changes.
    pub register_user-refuses :
        UniqueEmails E db
        → (k : ℕ) (u : User) → E.users.get k db.users ≡ some u
        → u.email ≡ email
        → register_user E C fresh_id now salt email password role db ≡ (err email_registered, db)
    register_user-refuses unique k u h e =
        register_user_taken u (user_by_email_found E laws db email unique k u h e)

    -- Whatever is requested, emails stay unique.
    pub register_user-UniqueEmails :
        UniqueEmails E db
        → UniqueEmails E (register_user E C fresh_id now salt email password role db).1
    register_user-UniqueEmails unique = elim (user_by_email-cases E laws db email unique) [
      | inl (looked, free) ↦ rw (register_user_free looked) (add_user-UniqueEmails _ db unique)
      | inr (u, looked, found, same) ↦ rw (register_user_taken u looked) unique
    ]
