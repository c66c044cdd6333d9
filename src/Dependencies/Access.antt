-- ===== src/Dependencies/Access.antt =====
-- What the two dependencies let through.
use alma_lead_management_ser.Common.{
  ℕ, ◌≡◌, ◌↔◌, sym, ◌∙◌, ap, true, some, Text, inl, inr, arith, subst,
}
use alma_lead_management_ser.Results.{ok, err, Result-cases}
use alma_lead_management_ser.Models.{User, admin, attorney}
use alma_lead_management_ser.Engine.{Engine, IsEngine, Db}
use alma_lead_management_ser.Security.{Crypto, TokenSettings, Payload, decode_access_token}
use alma_lead_management_ser.Dependencies.{
  get_current_user, require_admin, subject_id, admin_required,
}

module _ (E : Engine) (C : Crypto) (settings : TokenSettings) (now : ℕ) (token : Text)
    (db : Db E) where
  -- Neither dependency writes to the database, whatever the token.
  pub get_current_user-reads : (get_current_user E C settings now token db).1 ≡ db
  unfolding get_current_user
  get_current_user-reads = ground arith

  pub require_admin-reads : (require_admin E C settings now token db).1 ≡ db
  unfolding require_admin
  require_admin-reads = ground arith

  -- `require_admin` lets through exactly those whom `get_current_user` lets through and whose role
  -- is ADMIN.
  pub require_admin_iff :
      (u : User)
      → ((require_admin E C settings now token db).0 ≡ ok u)
        ↔ (((get_current_user E C settings now token db).0 ≡ ok u) × (u.role ≡ admin))
  unfolding require_admin get_current_user
  require_admin_iff u = (λ h. ground arith, λ h. ground arith)

  -- An attorney whom `get_current_user` lets through is refused by `require_admin` with 403.
  pub require_admin-refuses :
      (u : User)
      → (get_current_user E C settings now token db).0 ≡ ok u
      → u.role ≡ attorney
      → (require_admin E C settings now token db).0 ≡ err admin_required
  unfolding require_admin get_current_user
  require_admin-refuses u h e = ground arith

  -- Whoever is let through is an account that stands in the database under its key, is active, and
  -- is the subject of the token, which is valid now.
  pub get_current_user-IsGenuine :
      IsEngine E
      → (u : User) → (get_current_user E C settings now token db).0 ≡ ok u
      → (E.users.get u.id db.users ≡ some u)
        × (u.is_active ≡ true)
        × ((p : Payload) × (decode_access_token C settings now token ≡ ok p)
            × (subject_id C p ≡ ok u.id))
  unfolding get_current_user
  get_current_user-IsGenuine laws u h =
      elim (Result-cases (decode_access_token C settings now token)) [
        | inr (e, q) ↦ absurd (ground arith)
        | inl (p, q) ↦ elim (Result-cases (subject_id C p)) [
          | inr (e, q') ↦ absurd (ground arith)
          | inl (k, q') ↦
              let got : E.users.get k db.users ≡ some u = ground arith in
              let same : u.id ≡ k = laws.users.id-get k db.users u got in
              (
                subst (λ j. E.users.get j db.users ≡ some u) (sym same) got,
                ground arith,
                (p, q, q' ∙ ap (λ (j : ℕ). ok j) (sym same)),
              )
        ]
      ]
