-- ===== src/Auth.antt =====
-- app/services/auth_service.py: accounts and login. Each function is an action on the database; the
-- key of a new row, the time and the bcrypt salt are arguments.
pub mod Lookup
pub mod Register
pub mod Accounts
pub mod Racing
pub mod Requesting
pub mod Fixtures
mod Tests
use alma_lead_management_ser.Common.{
  ℕ, Bool, true, false, not, ◌&&◌, ◌||◌, Option, none, some, List, [], ◌∷◌, map, ◌==◌,
  if◌then◌else◌, Text, text_eq, codes,
}
use alma_lead_management_ser.Results.{
  Result, ok, err, Error, http, integrity_error, multiple_results_found, Action, pure, raise, lift,
  gets, ◌>>=◌, ◌>>◌, raise_if,
}
use alma_lead_management_ser.Models.{User, UserRole, admin, attorney, role_eq, role_value, new_user}
use alma_lead_management_ser.Engine.{Engine, Db, is_some, delete_user_row}
use alma_lead_management_ser.Security.{
  Crypto, TokenSettings, hash_password, verify_password, create_access_token,
}

-- `result.scalar_one_or_none()`
abbrev pub scalar_one_or_none {ℓ} : {A : Type ℓ} → List A → Result (Option A)
scalar_one_or_none [] = ok none
scalar_one_or_none (x ∷ []) = ok (some x)
scalar_one_or_none (x ∷ y ∷ zs) = err multiple_results_found

abbrev pub email_registered : Error
email_registered = http 400 (codes "Email already registered")

abbrev pub invalid_credentials : Error
invalid_credentials = http 401 (codes "Invalid email or password")

abbrev pub account_deactivated : Error
account_deactivated = http 403 (codes "Account has been deactivated")

abbrev pub user_not_found : Error
user_not_found = http 404 (codes "User not found")

abbrev pub cannot_deactivate_self : Error
cannot_deactivate_self = http 400 (codes "Cannot deactivate your own account")

abbrev pub only_admins_deactivate : Error
only_admins_deactivate = http 403 (codes "Only admins can deactivate admin accounts")

abbrev pub already_deactivated : Error
already_deactivated = http 400 (codes "User is already deactivated")

abbrev pub already_active : Error
already_active = http 400 (codes "User is already active")

abbrev pub cannot_delete_self : Error
cannot_delete_self = http 400 (codes "Cannot delete your own account")

abbrev pub only_admins_delete : Error
only_admins_delete = http 403 (codes "Only admins can delete admin accounts")

-- `User.role == UserRole.ATTORNEY, User.is_active == True`
abbrev pub is_active_attorney : User → Bool
is_active_attorney u = role_eq u.role attorney && u.is_active

-- `user.role == UserRole.ADMIN and requesting_user.role != UserRole.ADMIN`
abbrev pub outranks : User → User → Bool
outranks user requesting = role_eq user.role admin && not (role_eq requesting.role admin)

module _ (E : Engine) where
  -- `select(User).where(User.email == email)`
  unfoldable pub user_by_email : Text → Action (Db E) (Option User)
  user_by_email email db =
      (scalar_one_or_none (E.users.find (λ u. text_eq u.email email) db.users), db)

  abbrev stored : User → Db E → Option E.users.Store → Result User × Db E
  stored u db none = (err integrity_error, db)
  stored u db (some users) = (ok u, record db { users = users })

  -- `db.add(user)`, `commit` and `refresh`.
  abbrev pub add_user : User → Action (Db E) User
  add_user u db = stored u db (E.users.insert u db.users)

  -- The changed row is written by `commit`.
  abbrev pub save_user : User → Action (Db E) User
  save_user u db = (ok u, record db { users = E.users.update u db.users })

  unfoldable pub register_user :
      Crypto → (fresh_id now : ℕ) → (salt email password : Text) → UserRole → Action (Db E) User
  register_user C fresh_id now salt email password role = do
    existing ← user_by_email email
    raise_if (is_some existing) email_registered
    add_user (new_user fresh_id now email (hash_password C salt password) role)

  abbrev check_password : Crypto → Text → Option User → Result User
  check_password C password none = err invalid_credentials
  check_password C password (some u) =
      if verify_password C password u.hashed_password then ok u else err invalid_credentials

  unfoldable pub authenticate_user :
      Crypto → TokenSettings → (now : ℕ) → (email password : Text) → Action (Db E) Text
  authenticate_user C settings now email password = do
    found ← user_by_email email
    user ← lift (check_password C password found)
    raise_if (not user.is_active) account_deactivated
    pure (create_access_token C settings now (C.uuid_str user.id) (role_value user.role))

  unfoldable pub list_users : Db E → List User
  list_users db = E.users.order (λ u. true) (λ u. u.created_at) db.users

  unfoldable pub list_active_attorney_emails : Db E → List Text
  list_active_attorney_emails db =
      map (λ (u : User). u.email) (E.users.find is_active_attorney db.users)

  abbrev found_user : Option User → Result User
  found_user none = err user_not_found
  found_user (some u) = ok u

  unfoldable pub get_user : ℕ → Action (Db E) User
  get_user user_id db = (found_user (E.users.get user_id db.users), db)

  unfoldable pub deactivate_user : (user_id : ℕ) → (requesting_user : User) → Action (Db E) User
  deactivate_user user_id requesting = do
    user ← get_user user_id
    raise_if (user.id == requesting.id) cannot_deactivate_self
    raise_if (outranks user requesting) only_admins_deactivate
    raise_if (not user.is_active) already_deactivated
    save_user (record user { is_active = false })

  unfoldable pub reactivate_user : (user_id : ℕ) → Action (Db E) User
  reactivate_user user_id = do
    user ← get_user user_id
    raise_if user.is_active already_active
    save_user (record user { is_active = true })

  unfoldable pub delete_user : (user_id : ℕ) → (requesting_user : User) → Action (Db E) (Unit {0})
  delete_user user_id requesting = do
    user ← get_user user_id
    raise_if (user.id == requesting.id) cannot_delete_self
    raise_if (outranks user requesting) only_admins_delete
    λ db. (ok tt, delete_user_row E user.id db)
