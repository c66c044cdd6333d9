-- ===== src/Context.antt =====
-- The middleware `set_rls_context` of app/main.py and `get_db` of app/db/session.py: the variables
-- that the policies of the database read, set on the connection of a request.
pub mod Agreement
mod Tests
use alma_lead_management_ser.Common.{
  ℕ, Bool, ◌||◌, Option, none, some, List, [], ◌∷◌, drop, if◌then◌else◌, Text, text_eq, truthy,
  starts_with, codes,
}
use alma_lead_management_ser.Results.{Result, ok, err, value_error}
use alma_lead_management_ser.Security.{Crypto, TokenSettings, Payload, decode_access_token}

-- `request.state`
pub record RequestState : Type 0 where
  pub current_user_id : Option Text
  pub current_user_role : Option Text

abbrev pub nobody : RequestState
nobody = record { current_user_id = none; current_user_role = none }

-- One `SET` statement.
pub data Variable : Type 0 where
  set_current_user_id set_current_user_role : Text → Variable

-- `role and role in ("ADMIN", "ATTORNEY")`
abbrev pub role_variables : Option Text → List Variable
role_variables none = []
role_variables (some role) =
    if text_eq role (codes "ADMIN") || text_eq role (codes "ATTORNEY")
    then set_current_user_role role ∷ []
    else []

module _ (C : Crypto) (settings : TokenSettings) (now : ℕ) where
  abbrev state_of : Result Payload → RequestState
  state_of (err e) = nobody
  state_of (ok p) = record { current_user_id = p.sub; current_user_role = p.role }

  -- The header `authorization`, "" if it is missing.
  unfoldable pub set_rls_context : (auth_header : Text) → RequestState
  set_rls_context auth_header =
      if starts_with auth_header (codes "Bearer ")
      then state_of (decode_access_token C settings now (drop 7 auth_header))
      else nobody

  -- `str(uuid.UUID(str(user_id)))`, and the variables that `get_db` sets.
  abbrev user_variables : Option Text → Option ℕ → Result (List Variable)
  user_variables role none = err value_error
  user_variables role (some user_id) =
      ok (set_current_user_id (C.uuid_str user_id) ∷ role_variables role)

  unfoldable pub get_db : RequestState → Result (List Variable)
  get_db state = elim state.current_user_id [
    | none ↦ ok []
    | some user_id ↦
        if truthy user_id
        then user_variables state.current_user_role (C.uuid_parse user_id)
        else ok []
  ]
