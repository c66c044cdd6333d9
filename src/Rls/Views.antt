-- ===== src/Rls/Views.antt =====
-- A request as the database of revision 006 answers it: the settings that its header makes on a
-- fresh connection (app/main.py, app/db/session.py), and the accounts that its statements return.
pub mod Requests
pub mod Tokens
pub mod Transparent
use alma_lead_management_ser.Common.{
  ℕ, Bool, true, false, ◌&&◌, Option, none, some, List, if◌then◌else◌, Text,
}
use alma_lead_management_ser.Results.{Result, ok, err}
use alma_lead_management_ser.Models.{User}
use alma_lead_management_ser.Database.{Table}
use alma_lead_management_ser.Engine.{Engine, Db}
use alma_lead_management_ser.Security.{Crypto, TokenSettings}
use alma_lead_management_ser.Context.{Variable, set_rls_context, get_db}
use alma_lead_management_ser.Migrations.Columns.{users_policies}
use alma_lead_management_ser.Rls.{
  Settings, unset, set_variables, Truth, holds, fails, unknown, raises, user_readable,
}

-- A request that `get_db` refuses reaches no statement.
abbrev pub settings_after : Result (List Variable) → Settings
settings_after (ok vs) = set_variables vs unset
settings_after (err e) = unset

unfoldable pub request_settings :
    Crypto → TokenSettings → (now : ℕ) → (auth_header : Text) → Settings
request_settings C settings now auth_header =
    settings_after (get_db C settings now (set_rls_context C settings now auth_header))

abbrev pub is_shown : Truth → Bool
is_shown holds = true
is_shown fails = false
is_shown unknown = false
is_shown raises = false

unfoldable pub shown : Crypto → Settings → User → Bool
shown C s u = is_shown (user_readable C users_policies s u)

abbrev pub keep {ℓ} : {A : Type ℓ} → (A → Bool) → Option A → Option A
keep test none = none
keep test (some a) = if test a then some a else none

-- The statements that read get the rows that are shown. What writes is the table's own, so a
-- theorem on such a view is about functions that only read.
abbrev pub view : {Row : Type 0} → {id : Row → ℕ} → (Row → Bool) → Table id → Table id
view test T = record T {
  get = λ k s. keep test (T.get k s);
  find = λ p s. T.find (λ r. p r && test r) s;
  order = λ p key s. T.order (λ r. p r && test r) key s;
  page = λ p key limit offset s. T.page (λ r. p r && test r) key limit offset s;
  count = λ p s. T.count (λ r. p r && test r) s;
}

abbrev pub seen : Crypto → Settings → Engine → Engine
seen C s E = record E { users = view (shown C s) E.users }

abbrev pub as_seen : (C : Crypto) → (s : Settings) → (E : Engine) → Db E → Db (seen C s E)
as_seen C s E db = record { users = db.users; leads = db.leads; audit_logs = db.audit_logs }
