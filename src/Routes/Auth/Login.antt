-- ===== src/Routes/Auth/Login.antt =====
-- What a login leads to.
use alma_lead_management_ser.Common.{
  ℕ, ◌+◌, ◌*◌, ◌<◌, ◌≡◌, refl, ap, true, Option, some, [], ◌∷◌, Text, truthy, arith, inl, inr,
  Option-cases,
}
use alma_lead_management_ser.Results.{ok}
use alma_lead_management_ser.Models.{User, role_value}
use alma_lead_management_ser.Engine.{Engine, IsEngine, Db}
use alma_lead_management_ser.Security.{
  Crypto, IsCrypto, TokenSettings, create_access_token, decode_access_token,
}
use alma_lead_management_ser.Schemas.{parse_login}
use alma_lead_management_ser.Auth.{authenticate_user, user_by_email}
use alma_lead_management_ser.Auth.Lookup.{UniqueEmails}
use alma_lead_management_ser.Dependencies.Login.{HasPassword, token_of, authenticate_user-logs_in}
use alma_lead_management_ser.Routes.{Moment, audit}
use alma_lead_management_ser.Routes.Auth.{login, login_action}

module _ (E : Engine) (laws : IsEngine E) (C : Crypto) (crypto : IsCrypto C)
    (settings : TokenSettings) (m : Moment) (email_str : Text → Option Text) (db : Db E) where
  str_truthy : (u : ℕ) → truthy (C.uuid_str u) ≡ true
  str_truthy u = go (C.uuid_str u) refl
    where
      go : (s : Text) → C.uuid_str u ≡ s → truthy s ≡ true
      go [] e =
          absurd (
            ground
              (arith, ap C.uuid_parse e, crypto.uuid_parse-uuid_str u, crypto.uuid_parse_empty))
      go (c ∷ s) e = refl

  -- Where emails are unique and tokens live for some minutes, a login with the address and the
  -- password of an active account hands out the account's token, queues one audit entry of the login
  -- that names the account, and changes nothing.
  pub login-audits :
      (k : ℕ) (u : User) (email password : Text)
      → UniqueEmails E db
      → 0 < settings.access_token_expire_minutes
      → email_str email ≡ some u.email
      → E.users.get k db.users ≡ some u
      → HasPassword C password u
      → u.is_active ≡ true
      → login E C settings m email_str email password db
        ≡ (ok (token_of C settings m.now u, audit (login_action u.id u.email) ∷ []), db)
  unfolding login parse_login decode_access_token create_access_token
  login-audits k u email password unique pos address h pw active = ground (
    arith,
    authenticate_user-logs_in E laws C crypto settings db unique m.now k u password h pw active,
    crypto.jwt_decode-jwt_encode m.now
        (record {
          sub = some (C.uuid_str u.id);
          role = some (role_value u.role);
          exp = m.now + settings.access_token_expire_minutes * 60;
        })
        settings.secret_key (omega arith),
    crypto.uuid_parse-uuid_str u.id,
    str_truthy u.id,
  )

  authenticate_user-reads :
      (email password : Text) → (authenticate_user E C settings m.now email password db).1 ≡ db
  unfolding authenticate_user user_by_email
  authenticate_user-reads email password = ground arith

  -- No login changes the database, whatever address and password it comes with.
  pub login-reads :
      (email password : Text) → (login E C settings m email_str email password db).1 ≡ db
  unfolding login
  login-reads email password = elim (Option-cases (parse_login email_str email password)) [
    | inl bad ↦ ground arith
    | inr (body, good) ↦ ground (arith, authenticate_user-reads body.email body.password)
  ]
