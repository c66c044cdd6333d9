-- ===== src/Rls/Views/Tokens.antt =====
-- The token of a login behind the policies: app/core/dependencies.py on a connection of app/db/session.py.
use alma_lead_management_ser.Common.{
  ℕ, ◌+◌, ◌*◌, ◌<◌, ◌∙◌, if◌then◌else◌, ◌≡◌, ap, ◌⊎◌, refl, inl, inr, true, false, some, ◌∷◌, ◌++◌,
  Text, codes, arith, Bool-cases,
}
use alma_lead_management_ser.Results.{Result, ok, err}
use alma_lead_management_ser.Models.{User, UserRole, admin, attorney, role_eq, role_value}
use alma_lead_management_ser.Engine.{Engine, IsEngine, Db}
use alma_lead_management_ser.Security.{Crypto, IsCrypto, TokenSettings}
use alma_lead_management_ser.Dependencies.{get_current_user, unknown_user, deactivated}
use alma_lead_management_ser.Dependencies.Login.{
  token_of, token_of-decodes, get_current_user-token_of,
}
use alma_lead_management_ser.Context.{role_variables, set_current_user_id}
use alma_lead_management_ser.Rls.{Settings, unset, set_variables}
use alma_lead_management_ser.Rls.Views.{request_settings, shown, seen, as_seen}
use alma_lead_management_ser.Rls.Views.Requests.{
  shown_iff_acting, request_settings-subject, request_settings-ActsFor, get_current_user-seen,
  get_current_user-hides,
}

admin_role :
    (user_id : Text) (role : UserRole)
    → role ≡ admin
    → (set_variables
        (set_current_user_id user_id ∷ role_variables (some (role_value role)))
        unset).user_role
      ≡ some (codes "ADMIN")
admin_role user_id admin e = refl
admin_role user_id attorney e = absurd (ground arith)

roles : (r : UserRole) → (r ≡ admin) ⊎ (r ≡ attorney)
roles admin = inl refl
roles attorney = inr refl

module _ (E : Engine) (laws : IsEngine E) (C : Crypto) (crypto : IsCrypto C)
    (settings : TokenSettings) (now later : ℕ) (u v : User) (db : Db E)
    (before : later < now + settings.access_token_expire_minutes * 60)
    (found : E.users.get u.id db.users ≡ some v) where
  abbrev own_token : Text
  own_token = token_of C settings now u

  -- What `get_current_user` returns for the token that the account got, with the policies in force.
  abbrev own_answer : Result User
  own_answer =
      (get_current_user
        (seen C (request_settings C settings later (codes "Bearer " ++ own_token)) E) C settings
        later own_token
        (as_seen C (request_settings C settings later (codes "Bearer " ++ own_token)) E db)).0

  own_active : v.is_active ≡ true → own_answer ≡ ok v
  own_active on = (get_current_user-seen E laws C crypto settings later own_token db v).1 (
      ap (λ p. p.0) (get_current_user-token_of E C crypto settings db now u v later before found)
      ∙ ground arith)

  own_attorney : v.is_active ≡ false → u.role ≡ attorney → own_answer ≡ err unknown_user
  own_attorney off role =
      let (decoded, subject) = token_of-decodes E C crypto settings db now u later before in
      let same = laws.users.id-get u.id db.users v found in
      (get_current_user-hides E laws C crypto settings later own_token db v _ decoded
        (subject ∙ ground arith) (ap (λ r. some (role_value r)) role)
        (ap (λ j. E.users.get j db.users) same ∙ found) off).0

  own_admin : v.is_active ≡ false → u.role ≡ admin → own_answer ≡ err deactivated
  unfolding get_current_user
  own_admin off role =
      let (decoded, subject) = token_of-decodes E C crypto settings db now u later before in
      let seen_as = request_settings C settings later (codes "Bearer " ++ own_token) in
      let acts =
        request_settings-ActsFor E laws C crypto settings later own_token db _ u.id decoded
          subject in
      let told =
        request_settings-subject E laws C crypto settings later own_token db _ u.id decoded
          subject in
      let as_admin =
        ap (λ (s : Settings). s.user_role) told ∙ admin_role (C.uuid_str u.id) u.role role in
      let visible : shown C seen_as v ≡ true =
        (shown_iff_acting C seen_as u.id acts v).1 (inl as_admin) in
      ground (arith, visible, decoded, subject)

  -- A token that an account got names it to `get_current_user` until it expires, with the policies in
  -- force and at any later state of the database in which the account is stored. While the account is
  -- active it is let through. Once it is deactivated, an account that was an administrator when it
  -- got the token is refused with 403, and an attorney with 401, as an unknown user.
  pub get_current_user-own_token : own_answer ≡ (
      if v.is_active
      then ok v
      else if role_eq u.role admin
      then err deactivated
      else err unknown_user)
  get_current_user-own_token = elim (Bool-cases v.is_active) [
    | inl on ↦ own_active on ∙ ground arith
    | inr off ↦ elim (roles u.role) [
      | inl role ↦ own_admin off role ∙ ground arith
      | inr role ↦ own_attorney off role ∙ ground arith
    ]
  ]
