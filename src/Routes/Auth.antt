-- ===== src/Routes/Auth.antt =====
-- app/api/routes/auth.py: the login.
pub mod Login
mod Tests
use alma_lead_management_ser.Common.{
  ℕ, Option, none, some, List, [], ◌∷◌, if◌then◌else◌, Text, truthy, codes,
}
use alma_lead_management_ser.Results.{Result, ok, err, value_error, Action, pure, lift, ◌>>=◌}
use alma_lead_management_ser.Engine.{Engine, Db}
use alma_lead_management_ser.Security.{Crypto, TokenSettings, Payload, decode_access_token}
use alma_lead_management_ser.Auth.{authenticate_user}
use alma_lead_management_ser.Schemas.{parse_login}
use alma_lead_management_ser.Audit.Log as Log
use alma_lead_management_ser.Routes.{Moment, Task, audit, Handler, valid_body}

-- The audit entry of a login.
abbrev pub login_action : (user_id : ℕ) → Text → Log.Action
login_action user_id email = record {
  entity_type = codes "user";
  entity_id = user_id;
  action = codes "user_login";
  user_id = some user_id;
  user_email = some email;
  old_state = none;
  new_state = none;
  detail = none;
  lead_id = none;
}

-- `payload.get("sub")`, where it is truthy.
abbrev pub subject_of : Payload → Option Text
subject_of p = elim p.sub [ none ↦ none | some sub ↦ if truthy sub then some sub else none ]

module _ (E : Engine) (C : Crypto) (settings : TokenSettings) (m : Moment) where
  -- `uuid.UUID(user_id_str)`
  abbrev login_tasks : (email : Text) → Option Text → Result (List Task)
  login_tasks email none = ok []
  login_tasks email (some sub) = elim (C.uuid_parse sub) [
    | none ↦ err value_error
    | some user_id ↦ ok (audit (login_action user_id email) ∷ [])
  ]

  unfoldable pub login : (email_str : Text → Option Text) → (email password : Text) → Handler E Text
  login email_str email password = do
    body ← lift (valid_body (parse_login email_str email password))
    token ← authenticate_user E C settings m.now body.email body.password
    payload ← lift (decode_access_token C settings m.now token)
    tasks ← lift (login_tasks body.email (subject_of payload))
    pure (token, tasks)
