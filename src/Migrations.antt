-- ===== src/Migrations.antt =====
-- The operations that the migrations of alembic/versions call on PostgreSQL, on the part of its
-- catalog that they touch. An operation that PostgreSQL refuses ends the migration, whose
-- transaction is then rolled back.
pub mod Columns
pub mod Revisions
pub mod Steps
pub mod Chain
pub mod Agreement
mod Tests
use alma_lead_management_ser.Common.{
  ℕ, zero, suc, ◌++◌, Bool, true, false, not, ◌&&◌, ◌||◌, Option, none, some, List, [], ◌∷◌, map,
  all, select, if◌then◌else◌, Text, text_eq, codes,
}
use alma_lead_management_ser.Storage.Paths.{text_leb}
use alma_lead_management_ser.Sql.{
  SqlType, uuid, text, boolean, timestamp_tz, string, enumeration, ForeignKey, Column, Policy,
}

pub record SqlIndex : Type 0 where
  pub name : Text
  pub columns : List Text
  pub unique : Bool

pub record SqlTable : Type 0 where
  pub name : Text
  pub columns : List Column
  pub indexes : List SqlIndex
  -- a set, kept in the order of the names
  pub policies : List Policy
  pub row_security : Bool
  pub forced : Bool
  -- the role alma_app may select, insert, update and delete
  pub granted : Bool

pub record Schema : Type 0 where
  pub tables : List SqlTable
  -- the names of the enumeration types
  pub enums : List Text
  pub sequences_granted : Bool
  -- there is a role alma_app
  pub alma_app : Bool
  -- a new table grants alma_app the same (`ALTER DEFAULT PRIVILEGES` of docker/init-db.sql)
  pub granted_by_default : Bool

pub data Op : Type 0 where
  create_table : Text → List Column → Op
  drop_table : Text → Op
  add_column : (table : Text) → Column → Op
  drop_column : (table column : Text) → Op
  create_index : (name table : Text) → List Text → Op
  drop_index : (name table : Text) → Op
  -- `sa.Enum(name=...).drop(op.get_bind(), checkfirst=True)`
  drop_enum : Text → Op
  create_policy : (table : Text) → Policy → Op
  drop_policy : (name table : Text) → Op
  row_security : (table : Text) → Bool → Op
  force_row_security : (table : Text) → Bool → Op
  -- the two `GRANT ... TO alma_app` on everything in the schema, and their `REVOKE`s
  grant_tables grant_sequences : Bool → Op

abbrev pub has_table : Text → List SqlTable → Bool
has_table name [] = false
has_table name (t ∷ ts) = text_eq t.name name || has_table name ts

abbrev has_index : Text → List SqlIndex → Bool
has_index name [] = false
has_index name (i ∷ is) = text_eq i.name name || has_index name is

-- Tables and indexes share one space of names.
abbrev pub has_relation : Text → List SqlTable → Bool
has_relation name [] = false
has_relation name (t ∷ ts) =
    text_eq t.name name || (has_index name t.indexes || has_relation name ts)

abbrev pub has_name : Text → List Text → Bool
has_name name [] = false
has_name name (e ∷ es) = text_eq e name || has_name name es

abbrev pub refers : Text → List Column → Bool
refers name [] = false
refers name (c ∷ cs) =
    (elim c.foreign_key [ none ↦ false | some k ↦ text_eq k.table name ]) || refers name cs

-- Some table but the named one has a foreign key to it.
abbrev pub referenced : Text → List SqlTable → Bool
referenced name [] = false
referenced name (t ∷ ts) =
    (not (text_eq t.name name) && refers name t.columns) || referenced name ts

-- The enumeration types that a list of columns brings.
abbrev pub column_enums : List Column → List Text
column_enums [] = []
column_enums (c ∷ cs) = elim c.sql_type [
  | enumeration name values ↦ name ∷ column_enums cs
  | _ ↦ column_enums cs
]

-- Some column has the type.
abbrev pub enum_in_use : Text → List SqlTable → Bool
enum_in_use name [] = false
enum_in_use name (t ∷ ts) = has_name name (column_enums t.columns) || enum_in_use name ts

abbrev pub no_enum : List Text → List Text → Bool
no_enum [] enums = true
no_enum (e ∷ es) enums = not (has_name e enums) && no_enum es enums

abbrev pub keys_exist : List Column → List SqlTable → Bool
keys_exist [] ts = true
keys_exist (c ∷ cs) ts =
    (elim c.foreign_key [ none ↦ true | some k ↦ has_table k.table ts ]) && keys_exist cs ts

abbrev find_table : Text → List SqlTable → Option SqlTable
find_table name [] = none
find_table name (t ∷ ts) = if text_eq t.name name then some t else find_table name ts

abbrev has_column : Text → List Column → Bool
has_column name [] = false
has_column name (c ∷ cs) = text_eq c.name name || has_column name cs

abbrev has_policy : Text → List Policy → Bool
has_policy name [] = false
has_policy name (p ∷ ps) = text_eq p.name name || has_policy name ps

-- `index=True` names its index ix_<table>_<column>.
abbrev column_indexes : Text → List Column → List SqlIndex
column_indexes table [] = []
column_indexes table (c ∷ cs) =
    if c.index
    then record {
      name = codes "ix_" ++ (table ++ (codes "_" ++ c.name));
      columns = c.name ∷ [];
      unique = c.unique;
    }
      ∷ column_indexes table cs
    else column_indexes table cs

abbrev names_free : List SqlIndex → List SqlTable → Bool
names_free [] ts = true
names_free (i ∷ is) ts = not (has_relation i.name ts) && names_free is ts

-- What is asked of the table that an operation names.
abbrev on_table : Text → (SqlTable → Bool) → List SqlTable → Bool
on_table name test ts = elim (find_table name ts) [ none ↦ false | some t ↦ test t ]

-- PostgreSQL accepts the operation.
unfoldable pub allowed : Op → Schema → Bool
allowed (create_table name columns) s =
    not (has_relation name s.tables)
    && names_free (column_indexes name columns) s.tables
    && no_enum (column_enums columns) s.enums
    && keys_exist columns s.tables
allowed (drop_table name) s = has_table name s.tables && not (referenced name s.tables)
allowed (add_column table c) s =
    on_table table (λ t. not (has_column c.name t.columns)) s.tables && keys_exist (c ∷ []) s.tables
allowed (drop_column table column) s = on_table table (λ t. has_column column t.columns) s.tables
allowed (create_index name table columns) s =
    not (has_relation name s.tables)
    && on_table table (λ t. all (λ c. has_column c t.columns) columns) s.tables
allowed (drop_index name table) s = on_table table (λ t. has_index name t.indexes) s.tables
allowed (drop_enum name) s = not (enum_in_use name s.tables)
allowed (create_policy table p) s =
    on_table table (λ t. not (has_policy p.name t.policies)) s.tables
allowed (drop_policy name table) s = has_table table s.tables
allowed (row_security table on) s = has_table table s.tables
allowed (force_row_security table on) s = has_table table s.tables
allowed (grant_tables on) s = s.alma_app
allowed (grant_sequences on) s = s.alma_app

abbrev place_policy : Policy → List Policy → List Policy
place_policy p [] = p ∷ []
place_policy p (q ∷ qs) = if text_leb p.name q.name then p ∷ q ∷ qs else q ∷ place_policy p qs

abbrev change_table : Text → (SqlTable → SqlTable) → List SqlTable → List SqlTable
change_table name f [] = []
change_table name f (t ∷ ts) = if text_eq t.name name then f t ∷ ts else t ∷ change_table name f ts

abbrev remove_table : Text → List SqlTable → List SqlTable
remove_table name [] = []
remove_table name (t ∷ ts) = if text_eq t.name name then ts else t ∷ remove_table name ts

abbrev remove_enum : Text → List Text → List Text
remove_enum name [] = []
remove_enum name (e ∷ es) = if text_eq e name then es else e ∷ remove_enum name es

abbrev pub set_granted : Bool → SqlTable → SqlTable
set_granted on t = record t { granted = on }

-- What an accepted operation does.
unfoldable pub effect : Op → Schema → Schema
effect (create_table name columns) s = record s {
  tables =
      record {
        name = name;
        columns = columns;
        indexes = column_indexes name columns;
        policies = [];
        row_security = false;
        forced = false;
        granted = s.granted_by_default;
      }
      ∷ s.tables;
  enums = column_enums columns ++ s.enums;
}
effect (drop_table name) s = record s { tables = remove_table name s.tables }
effect (add_column table c) s = record s {
  tables = change_table table (λ t. record t { columns = t.columns ++ (c ∷ []) }) s.tables;
}
effect (drop_column table column) s = record s {
  tables =
      change_table table
        (λ t. record t {
          columns = select (λ c. not (text_eq c.name column)) t.columns;
          indexes = select (λ i. not (has_name column i.columns)) t.indexes;
        })
        s.tables;
}
effect (create_index name table columns) s = record s {
  tables =
      change_table table
        (λ t. record t {
          indexes = t.indexes ++ (record { name = name; columns = columns; unique = false } ∷ []);
        })
        s.tables;
}
effect (drop_index name table) s = record s {
  tables =
      change_table table
        (λ t. record t { indexes = select (λ i. not (text_eq i.name name)) t.indexes }) s.tables;
}
effect (drop_enum name) s = record s { enums = remove_enum name s.enums }
effect (create_policy table p) s = record s {
  tables = change_table table (λ t. record t { policies = place_policy p t.policies }) s.tables;
}
effect (drop_policy name table) s = record s {
  tables =
      change_table table
        (λ t. record t { policies = select (λ p. not (text_eq p.name name)) t.policies }) s.tables;
}
effect (row_security table on) s = record s {
  tables = change_table table (λ t. record t { row_security = on }) s.tables;
}
effect (force_row_security table on) s = record s {
  tables = change_table table (λ t. record t { forced = on }) s.tables;
}
effect (grant_tables on) s = record s { tables = map (set_granted on) s.tables }
effect (grant_sequences on) s = record s { sequences_granted = on }

-- A migration's operations in one transaction: `none` is the exception, and nothing is changed then.
unfoldable pub migrate : List Op → Schema → Option Schema
migrate [] s = some s
migrate (op ∷ ops) s = if allowed op s then migrate ops (effect op s) else none
