-- ===== src/Rls/Verdicts.antt =====
-- Which rows the policies of revision 006 show, for any settings of the connection.
use alma_lead_management_ser.Common.{ℕ, ◌≡◌, ◌≢◌, ◌⊎◌, ◌↔◌, refl, true, some, codes, arith}
use alma_lead_management_ser.Models.{User}
use alma_lead_management_ser.Security.{Crypto}
use alma_lead_management_ser.Migrations.Columns.{users_policies, uid_006}
use alma_lead_management_ser.Rls.{
  Settings, Truth, holds, fails, raises, truth, and_truth, or_truth, value, invalid, cast_uid,
  equals_uid, equals_text, at_user, user_readable,
}
use alma_lead_management_ser.Rls.Truths.{
  equals_text-holds, or_truth-holds, or_truth-defined, equals_uid-holds, equals_uid-defined,
  and_truth-holds, truth-holds, and_truth-defined, equals_text-defined,
}

-- The connection acts for an administrator.
abbrev pub IsAdmin : Settings → Type 0
IsAdmin s = s.user_role ≡ some (codes "ADMIN")

module _ (C : Crypto) (s : Settings) where
  -- The connection acts for the account with the key `k`.
  abbrev pub ActsFor : ℕ → Type 0
  ActsFor k = cast_uid C uid_006 s ≡ value k

  admin_truth : Truth
  admin_truth = equals_text s.user_role (codes "ADMIN")

  unfoldable pub own_truth : User → Truth
  own_truth u = and_truth (equals_uid u.id (cast_uid C uid_006 s)) (truth u.is_active)

  user_readable-eq :
      (u : User)
      → user_readable C users_policies s u ≡ or_truth admin_truth (or_truth (own_truth u) fails)
  unfolding user_readable at_user admin_truth own_truth
  user_readable-eq u = refl

  pub own_truth-holds : (u : User) → (own_truth u ≡ holds) ↔ (ActsFor u.id × (u.is_active ≡ true))
  unfolding own_truth
  own_truth-holds u =
      let uid = cast_uid C uid_006 s in
      ground (
        arith,
        and_truth-holds (equals_uid u.id uid) (truth u.is_active),
        equals_uid-holds u.id uid,
        truth-holds u.is_active,
      )

  pub own_truth-defined : (u : User) → cast_uid C uid_006 s ≢ invalid → own_truth u ≢ raises
  unfolding own_truth
  own_truth-defined u h =
      and_truth-defined (equals_uid u.id (cast_uid C uid_006 s)) u.is_active
        (equals_uid-defined u.id (cast_uid C uid_006 s) h)

  -- A row of `users` is shown to administrators, and to the active account whose row it is.
  pub user_readable_iff :
      (u : User)
      → cast_uid C uid_006 s ≢ invalid
      → (user_readable C users_policies s u ≡ holds)
        ↔ (IsAdmin s ⊎ (ActsFor u.id × (u.is_active ≡ true)))
  unfolding admin_truth
  user_readable_iff u h =
      let own = own_truth u in
      ground (
        arith,
        user_readable-eq u,
        or_truth-holds admin_truth own (equals_text-defined s.user_role (codes "ADMIN"))
            (own_truth-defined u h),
        own_truth-holds u,
        equals_text-holds s.user_role (codes "ADMIN"),
      )

  pub user_readable-defined :
      (u : User) → cast_uid C uid_006 s ≢ invalid → user_readable C users_policies s u ≢ raises
  unfolding admin_truth
  user_readable-defined u h = ground (
    arith,
    user_readable-eq u,
    or_truth-defined admin_truth (own_truth u) (equals_text-defined s.user_role (codes "ADMIN"))
        (own_truth-defined u h),
  )
