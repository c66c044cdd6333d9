-- ===== src/Sql.antt =====
-- What the migrations of alembic/versions say in SQL: columns, tables and row-level security.
use alma_lead_management_ser.Common.{ℕ, Bool, Option, List, Text}

pub data SqlType : Type 0 where
  uuid text boolean timestamp_tz : SqlType
  string : (length : ℕ) → SqlType
  enumeration : (name : Text) → (values : List Text) → SqlType

-- A foreign key with `ondelete="SET NULL"`.
pub record ForeignKey : Type 0 where
  pub table : Text
  pub column : Text

pub record Column : Type 0 where
  pub name : Text
  pub sql_type : SqlType
  pub nullable : Bool
  pub primary_key : Bool
  pub unique : Bool
  pub index : Bool
  pub foreign_key : Option ForeignKey
  pub server_default : Option Text

-- `app.current_user_id` and `app.current_user_role`.
pub data Setting : Type 0 where
  current_user_id current_user_role : Setting

pub data Uid : Type 0 where
  -- `current_setting(s, true)::uuid`
  setting_uuid : Setting → Uid
  -- `nullif(current_setting(s, true), '')::uuid`
  nonempty_setting_uuid : Setting → Uid

-- The condition of a policy. `id`, `is_active` and `role` are columns of the row at hand.
pub data Condition : Type 0 where
  constant_true : Condition
  -- `current_setting(s, true) = '...'`
  setting_equals : Setting → Text → Condition
  id_equals : Uid → Condition
  is_active_true : Condition
  role_equals : Text → Condition
  both : Condition → Condition → Condition
  -- `EXISTS (SELECT 1 FROM users WHERE ...)`
  exists_user : Condition → Condition

pub data Command : Type 0 where
  for_all for_select for_insert for_update : Command

pub record Policy : Type 0 where
  pub name : Text
  pub command : Command
  pub using : Option Condition
  pub with_check : Option Condition
