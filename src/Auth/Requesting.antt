-- ===== src/Auth/Requesting.antt =====
-- No account function touches the account of the administrator who calls it.
use alma_lead_management_ser.Common.{
  ℕ, ◌≡◌, refl, sym, subst, true, false, some, Option-cases, inl, inr, arith, Text,
}
use alma_lead_management_ser.Models.{User, UserRole}
use alma_lead_management_ser.Database.Laws.{get-insert_old, get-update_known}
use alma_lead_management_ser.Engine.{Engine, IsEngine, Db, delete_user_row, user_key, user_clash}
use alma_lead_management_ser.Security.{Crypto}
use alma_lead_management_ser.Auth.{
  register_user, deactivate_user, reactivate_user, delete_user, get_user, add_user,
}
use alma_lead_management_ser.Auth.Register.{register_user-outcome}

module _ (E : Engine) (laws : IsEngine E) (db : Db E) (a : User)
    (here : E.users.get a.id db.users ≡ some a) where
  abbrev Stays : Db E → Type 0
  Stays db' = E.users.get a.id db'.users ≡ some a

  pub deactivate_user-keeps : (k : ℕ) → Stays (deactivate_user E k a db).1
  unfolding deactivate_user get_user
  deactivate_user-keeps k = elim (Option-cases (E.users.get k db.users)) [
    | inl e ↦ ground arith
    | inr (u, e) ↦ ground (
      arith,
      laws.users.id-get k db.users u e,
      get-update_known E.users laws.users k a.id u (record u { is_active = false }) db.users e refl,
    )
  ]

  pub reactivate_user-keeps : a.is_active ≡ true → (k : ℕ) → Stays (reactivate_user E k db).1
  unfolding reactivate_user get_user
  reactivate_user-keeps active k = elim (Option-cases (E.users.get k db.users)) [
    | inl e ↦ ground arith
    | inr (u, e) ↦ ground (
      arith,
      laws.users.id-get k db.users u e,
      get-update_known E.users laws.users k a.id u (record u { is_active = true }) db.users e refl,
    )
  ]

  pub delete_user-keeps : (k : ℕ) → Stays (delete_user E k a db).1
  unfolding delete_user get_user delete_user_row
  delete_user-keeps k = elim (Option-cases (E.users.get k db.users)) [
    | inl e ↦ ground arith
    | inr (u, e) ↦
        ground (arith, laws.users.id-get k db.users u e, laws.users.get-delete a.id u.id db.users)
  ]

  same_key : (u v : User) → user_key u ≡ user_key v → user_clash u v ≡ true
  same_key u v e = ground arith

  added-Stays : (u : User) → Stays (add_user E u db).1
  added-Stays u = elim (Option-cases (E.users.insert u db.users)) [
    | inl e ↦ ground (arith, e)
    | inr (users, e) ↦
        ground (arith, e, get-insert_old E.users laws.users same_key a.id u a db.users users e here)
  ]

  pub register_user-keeps :
      (C : Crypto) (fresh_id now : ℕ) (salt email password : Text) (role : UserRole)
      → Stays (register_user E C fresh_id now salt email password role db).1
  register_user-keeps C fresh_id now salt email password role =
      elim (register_user-outcome E db C fresh_id now salt email password role) [
        | inl same ↦ subst Stays (sym same) here
        | inr added ↦ subst Stays (sym added) (added-Stays _)
      ]
