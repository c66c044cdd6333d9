-- ===== src/Dependencies/Login.antt =====
-- From a password to a token, and from a token back to the account.
use alma_lead_management_ser.Common.{
  ℕ, ◌+◌, ◌*◌, ◌<◌, ◌≡◌, ◌⊎◌, refl, true, false, some, Text, inl, inr, arith, if◌then◌else◌,
}
use alma_lead_management_ser.Results.{ok, err}
use alma_lead_management_ser.Models.{User, role_value}
use alma_lead_management_ser.Engine.{Engine, IsEngine, Db}
use alma_lead_management_ser.Security.{
  Crypto, IsCrypto, TokenSettings, Payload, verify_password, hash_password, create_access_token,
  decode_access_token, invalid_token,
}
use alma_lead_management_ser.Auth.{authenticate_user, invalid_credentials, account_deactivated}
use alma_lead_management_ser.Auth.Lookup.{
  UniqueEmails, Unregistered, user_by_email_found, user_by_email_missing,
}
use alma_lead_management_ser.Dependencies.{get_current_user, subject_id, deactivated}

-- The password of an account.
abbrev pub HasPassword : Crypto → Text → User → Type 0
HasPassword C password u = (salt : Text) × (u.hashed_password ≡ hash_password C salt password)

module _ (C : Crypto) (settings : TokenSettings) (now : ℕ) where
  -- The token that a login hands out.
  abbrev pub token_of : User → Text
  token_of u = create_access_token C settings now (C.uuid_str u.id) (role_value u.role)

module _ (E : Engine) (C : Crypto) (crypto : IsCrypto C) (settings : TokenSettings) (db : Db E)
    (now : ℕ) where
  -- What a token says, until it expires.
  pub token_of-decodes :
      (u : User) (later : ℕ)
      → later < now + settings.access_token_expire_minutes * 60
      → let p : Payload = record {
        sub = some (C.uuid_str u.id);
        role = some (role_value u.role);
        exp = now + settings.access_token_expire_minutes * 60;
      } in
        (decode_access_token C settings later (token_of C settings now u) ≡ ok p)
        × (subject_id C p ≡ ok u.id)
  unfolding create_access_token decode_access_token
  token_of-decodes u later before = (
    ground (
      arith,
      crypto.jwt_decode-jwt_encode later
          (record {
            sub = some (C.uuid_str u.id);
            role = some (role_value u.role);
            exp = now + settings.access_token_expire_minutes * 60;
          })
          settings.secret_key before,
    ),
    ground (arith, crypto.uuid_parse-uuid_str u.id),
  )

  -- Where all rows are shown, the token of an account names it to `get_current_user` until it expires,
  -- at any later state of the database in which the account is stored: while it is active it is let
  -- through, and once it is deactivated it is refused with 403.
  pub get_current_user-token_of :
      (u v : User) (later : ℕ)
      → later < now + settings.access_token_expire_minutes * 60
      → E.users.get u.id db.users ≡ some v
      → get_current_user E C settings later (token_of C settings now u) db
        ≡ (if v.is_active then (ok v, db) else (err deactivated, db))
  unfolding get_current_user create_access_token decode_access_token
  get_current_user-token_of u v later before found = ground (
    arith,
    crypto.jwt_decode-jwt_encode later
        (record {
          sub = some (C.uuid_str u.id);
          role = some (role_value u.role);
          exp = now + settings.access_token_expire_minutes * 60;
        })
        settings.secret_key before,
    crypto.uuid_parse-uuid_str u.id,
  )

  -- After its time a token is refused with 401, whoever it names.
  pub get_current_user_expired :
      (u : User) (later : ℕ)
      → now + settings.access_token_expire_minutes * 60 < later
      → get_current_user E C settings later (token_of C settings now u) db
        ≡ (err (invalid_token C), db)
  unfolding get_current_user create_access_token decode_access_token
  get_current_user_expired u later after = ground (
    arith,
    crypto.jwt_decode_expired later
        (record {
          sub = some (C.uuid_str u.id);
          role = some (role_value u.role);
          exp = now + settings.access_token_expire_minutes * 60;
        })
        settings.secret_key after,
  )

module _ (E : Engine) (laws : IsEngine E) (C : Crypto) (crypto : IsCrypto C)
    (settings : TokenSettings) (db : Db E) (unique : UniqueEmails E db) (now : ℕ) where
  accepts :
      (password : Text) (u : User)
      → HasPassword C password u
      → verify_password C password u.hashed_password ≡ true
  unfolding verify_password hash_password
  accepts password u (salt, e) = rw e (crypto.checkpw-hashpw password salt)

  -- An active account logs in with its password and gets its token, and nothing changes.
  pub authenticate_user-logs_in :
      (k : ℕ) (u : User) (password : Text)
      → E.users.get k db.users ≡ some u
      → HasPassword C password u
      → u.is_active ≡ true
      → authenticate_user E C settings now u.email password db
        ≡ (ok (token_of C settings now u), db)
  unfolding authenticate_user create_access_token
  authenticate_user-logs_in k u password h pw active =
      ground (arith, user_by_email_found E laws db u.email unique k u h refl, accepts password u pw)

  -- Where emails are unique, a deactivated account does not log in, not even with its password: 403.
  pub authenticate_user-deactivated :
      (k : ℕ) (u : User) (password : Text)
      → E.users.get k db.users ≡ some u
      → HasPassword C password u
      → u.is_active ≡ false
      → authenticate_user E C settings now u.email password db ≡ (err account_deactivated, db)
  unfolding authenticate_user
  authenticate_user-deactivated k u password h pw off =
      ground (arith, user_by_email_found E laws db u.email unique k u h refl, accepts password u pw)

  -- Where emails are unique, an email without an account and a wrong password get one and the same
  -- answer, also where the account is deactivated.
  pub authenticate_user-refuses :
      (email password : Text)
      → Unregistered E email db
        ⊎ ((k : ℕ) × (u : User) × (E.users.get k db.users ≡ some u)
            × (u.email ≡ email)
            × (verify_password C password u.hashed_password ≡ false))
      → authenticate_user E C settings now email password db ≡ (err invalid_credentials, db)
  unfolding authenticate_user
  authenticate_user-refuses email password (inl free) =
      ground (arith, user_by_email_missing E laws db email free)
  authenticate_user-refuses email password (inr (k, u, h, e, wrong)) =
      ground (arith, user_by_email_found E laws db email unique k u h e)
