-- ===== src/Routes/Admin/Interleaving.antt =====
-- Two requests at once: each has passed `require_admin` before the other commits.
use alma_lead_management_ser.Common.{◌≡◌, ◌≢◌, ◌∙◌, true, false, some, arith}
use alma_lead_management_ser.Results.{ok}
use alma_lead_management_ser.Models.{User, admin}
use alma_lead_management_ser.Engine.{Engine, IsEngine, Db}
use alma_lead_management_ser.Auth
use alma_lead_management_ser.Auth.Accounts.{deactivate_user-deactivates}

module _ (E : Engine) (laws : IsEngine E) (db : Db E) where
  -- The account under a key is stored with this row, is active and is an administrator.
  abbrev pub IsActiveAdmin : User → Type 0
  IsActiveAdmin a = (E.users.get a.id db.users ≡ some a) × (a.is_active ≡ true) × (a.role ≡ admin)

  -- Two active administrators who deactivate each other, and whose requests have both passed
  -- `require_admin` before either of them commits, both succeed, and both are inactive afterwards.
  pub deactivate_user-mutual :
      (a b : User)
      → IsActiveAdmin a
      → IsActiveAdmin b
      → a.id ≢ b.id
      → let (r, db') = Auth.deactivate_user E b.id a db in
        let (r', db'') = Auth.deactivate_user E a.id b db' in
        (r ≡ ok (record b { is_active = false }))
        × (r' ≡ ok (record a { is_active = false }))
        × (E.users.get a.id db''.users ≡ some (record a { is_active = false }))
        × (E.users.get b.id db''.users ≡ some (record b { is_active = false }))
  deactivate_user-mutual a b ha hb ne =
      let first = deactivate_user-deactivates E laws db b.id a b hb.0 (ground arith) in
      let db' = (Auth.deactivate_user E b.id a db).1 in
      let there : E.users.get a.id db'.users ≡ some a = first.1.0 a.id ∙ ground arith in
      let second = deactivate_user-deactivates E laws db' a.id b a there (ground arith) in
      (
        first.0,
        second.0,
        second.1.0 a.id ∙ ground arith,
        second.1.0 b.id ∙ ground (arith, first.1.0 b.id),
      )
