-- ===== src/Rls.antt =====
-- Row-level security: what PostgreSQL lets the role alma_app see and write under the policies of the
-- migrations, with the settings that app/db/session.py makes on the connection.
pub mod Truths
pub mod Verdicts
pub mod Rows
pub mod Repair
pub mod Views
pub mod Pool
mod Tests
use alma_lead_management_ser.Common.{
  ℕ, Bool, true, false, Option, none, some, List, [], ◌∷◌, ◌==◌, if◌then◌else◌, Text, text_eq,
  truthy,
}
use alma_lead_management_ser.Models.{User, role_value}
use alma_lead_management_ser.Security.{Crypto}
use alma_lead_management_ser.Sql.{
  Setting, current_user_id, current_user_role, Uid, setting_uuid, nonempty_setting_uuid, Condition,
  constant_true, setting_equals, id_equals, is_active_true, role_equals, both, exists_user, Command,
  for_all, for_select, for_insert, for_update, Policy,
}
use alma_lead_management_ser.Context.{Variable, set_current_user_id, set_current_user_role}

-- The two settings of a connection: `none` is NULL, the value of a setting that was never made.
pub record Settings : Type 0 where
  pub user_id : Option Text
  pub user_role : Option Text

abbrev pub unset : Settings
unset = record { user_id = none; user_role = none }

-- The `SET` statements of `get_db`, in their order.
abbrev pub set_variables : List Variable → Settings → Settings
set_variables [] s = s
set_variables (set_current_user_id v ∷ vs) s = set_variables vs (record s { user_id = some v })
set_variables (set_current_user_role v ∷ vs) s = set_variables vs (record s { user_role = some v })

-- The value of a condition: `unknown` is NULL, and `raises` an error that ends the statement.
pub data Truth : Type 0 where
  holds fails unknown raises : Truth

abbrev pub truth : Bool → Truth
truth true = holds
truth false = fails

-- PostgreSQL may evaluate both sides in either order, so an error of one side counts.
abbrev pub and_truth : Truth → Truth → Truth
and_truth raises b = raises
and_truth fails raises = raises
and_truth fails b = fails
and_truth holds b = b
and_truth unknown raises = raises
and_truth unknown fails = fails
and_truth unknown holds = unknown
and_truth unknown unknown = unknown

abbrev pub or_truth : Truth → Truth → Truth
or_truth raises b = raises
or_truth holds raises = raises
or_truth holds b = holds
or_truth fails b = b
or_truth unknown raises = raises
or_truth unknown holds = holds
or_truth unknown fails = unknown
or_truth unknown unknown = unknown

abbrev pub setting_value : Setting → Settings → Option Text
setting_value current_user_id s = s.user_id
setting_value current_user_role s = s.user_role

-- A value of type uuid, NULL, or the error of a cast.
pub data Casted : Type 0 where
  value : ℕ → Casted
  null invalid : Casted

-- `nullif(x, '')`
abbrev pub nullif_empty : Option Text → Option Text
nullif_empty none = none
nullif_empty (some t) = if truthy t then some t else none

abbrev pub equals_uid : ℕ → Casted → Truth
equals_uid id (value k) = truth (id == k)
equals_uid id null = unknown
equals_uid id invalid = raises

abbrev pub equals_text : Option Text → Text → Truth
equals_text none t = unknown
equals_text (some s) t = truth (text_eq s t)

module _ (C : Crypto) where
  abbrev pub cast_text : Option Text → Casted
  cast_text none = null
  cast_text (some t) = elim (C.uuid_parse t) [ none ↦ invalid | some k ↦ value k ]

  abbrev pub cast_uid : Uid → Settings → Casted
  cast_uid (setting_uuid x) s = cast_text (setting_value x s)
  cast_uid (nonempty_setting_uuid x) s = cast_text (nullif_empty (setting_value x s))

  -- A condition at a row of `users`, where `sub` answers EXISTS over `users`.
  unfoldable pub at_user : (sub : Condition → Truth) → Settings → User → Condition → Truth
  at_user sub s u constant_true = holds
  at_user sub s u (setting_equals x t) = equals_text (setting_value x s) t
  at_user sub s u (id_equals uid) = equals_uid u.id (cast_uid uid s)
  at_user sub s u is_active_true = truth u.is_active
  at_user sub s u (role_equals t) = truth (text_eq (role_value u.role) t)
  at_user sub s u (both c d) = and_truth (at_user sub s u c) (at_user sub s u d)
  at_user sub s u (exists_user c) = sub c

  -- The same at a row of another table, whose policies name no column of the row.
  unfoldable pub elsewhere : (sub : Condition → Truth) → Settings → Condition → Truth
  elsewhere sub s constant_true = holds
  elsewhere sub s (setting_equals x t) = equals_text (setting_value x s) t
  elsewhere sub s (id_equals uid) = raises
  elsewhere sub s is_active_true = raises
  elsewhere sub s (role_equals t) = raises
  elsewhere sub s (both c d) = and_truth (elsewhere sub s c) (elsewhere sub s d)
  elsewhere sub s (exists_user c) = sub c

abbrev same_command : Command → Command → Bool
same_command for_select for_select = true
same_command for_insert for_insert = true
same_command for_update for_update = true
same_command _ _ = false

-- A policy FOR ALL stands for each command.
abbrev pub covers : Command → Command → Bool
covers for_all wanted = true
covers c wanted = same_command c wanted

-- A row that is written meets WITH CHECK, or USING where there is none.
abbrev check_of : Policy → Option Condition
check_of p = elim p.with_check [ some c ↦ some c | none ↦ p.using ]

-- Policies are permissive: one of those for the command must hold, so without any all rows are barred.
abbrev pub any_policy :
    (Condition → Truth) → (Policy → Option Condition) → Command → List Policy → Truth
any_policy eval side wanted [] = fails
any_policy eval side wanted (p ∷ ps) =
    let rest = any_policy eval side wanted ps in
    if covers p.command wanted
    then (elim (side p) [ none ↦ rest | some c ↦ or_truth (eval c) rest ])
    else rest

abbrev pub readable : (Condition → Truth) → List Policy → Truth
readable eval ps = any_policy eval (λ p. p.using) for_select ps

abbrev pub insertable : (Condition → Truth) → List Policy → Truth
insertable eval ps = any_policy eval check_of for_insert ps

-- An UPDATE that reads the row meets the policies for SELECT too.
abbrev pub updatable : (Condition → Truth) → List Policy → Truth
updatable eval ps = and_truth (readable eval ps) (any_policy eval (λ p. p.using) for_update ps)

-- EXISTS over rows of which some may be hidden.
abbrev pub exists_in : (User → Truth) → List User → Truth
exists_in test [] = fails
exists_in test (u ∷ us) = or_truth (test u) (exists_in test us)

module _ (C : Crypto) (users_policies : List Policy) (s : Settings) where
  -- A query of `users` within a policy on `users` is an error: infinite recursion.
  unfoldable pub user_readable : User → Truth
  user_readable u = readable (at_user C (λ c. raises) s u) users_policies

  -- EXISTS from a policy of another table: the subquery meets the policies on `users` itself.
  unfoldable pub visible_user_exists : List User → Condition → Truth
  visible_user_exists users c =
      exists_in (λ u. and_truth (user_readable u) (at_user C (λ d. raises) s u c)) users

  unfoldable pub row_readable : List User → List Policy → Truth
  row_readable users ps = readable (elsewhere C (visible_user_exists users) s) ps

  unfoldable pub row_insertable : List User → List Policy → Truth
  row_insertable users ps = insertable (elsewhere C (visible_user_exists users) s) ps

  unfoldable pub row_updatable : List User → List Policy → Truth
  row_updatable users ps = updatable (elsewhere C (visible_user_exists users) s) ps
