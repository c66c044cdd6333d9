-- ===== src/Dependencies.antt =====
-- app/core/dependencies.py: who makes the request. `HTTPBearer` hands over the token.
pub mod Access
pub mod Login
pub mod Fixtures
mod Tests
use alma_lead_management_ser.Common.{ℕ, not, Option, none, some, if◌then◌else◌, Text, codes}
use alma_lead_management_ser.Results.{
  Result, ok, err, Error, http, value_error, key_error, Action, pure, lift, gets, ◌>>=◌, ◌>>◌,
  raise_if,
}
use alma_lead_management_ser.Models.{User, admin, role_eq}
use alma_lead_management_ser.Engine.{Engine, Db}
use alma_lead_management_ser.Security.{Crypto, TokenSettings, Payload, decode_access_token}

abbrev pub unknown_user : Error
unknown_user = http 401 (codes "User not found")

abbrev pub deactivated : Error
deactivated = http 403 (codes "Account has been deactivated")

abbrev pub admin_required : Error
admin_required = http 403 (codes "Admin access required")

-- `uuid.UUID(payload["sub"])`
abbrev pub subject_id : Crypto → Payload → Result ℕ
subject_id C p = elim p.sub [
  | none ↦ err key_error
  | some sub ↦ elim (C.uuid_parse sub) [ none ↦ err value_error | some u ↦ ok u ]
]

abbrev pub or_unknown : Option User → Result User
or_unknown none = err unknown_user
or_unknown (some u) = ok u

module _ (E : Engine) (C : Crypto) (settings : TokenSettings) (now : ℕ) where
  unfoldable pub get_current_user : Text → Action (Db E) User
  get_current_user token = do
    payload ← lift (decode_access_token C settings now token)
    user_id ← lift (subject_id C payload)
    found ← gets (λ (db : Db E). E.users.get user_id db.users)
    user ← lift (or_unknown found)
    raise_if (not user.is_active) deactivated
    pure user

  unfoldable pub require_admin : Text → Action (Db E) User
  require_admin token = do
    payload ← lift (decode_access_token C settings now token)
    user_id ← lift (subject_id C payload)
    found ← gets (λ (db : Db E). E.users.get user_id db.users)
    user ← lift (or_unknown found)
    raise_if (not user.is_active) deactivated
    raise_if (not (role_eq user.role admin)) admin_required
    pure user
