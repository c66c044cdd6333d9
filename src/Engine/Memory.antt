-- ===== src/Engine/Memory.antt =====
-- The database in memory, on which the theorems about every database are tried.
use alma_lead_management_ser.Common.{arith, []}
use alma_lead_management_ser.Database.Memory.{memory, memory-IsTable, KeepsKeys}
use alma_lead_management_ser.Engine.{
  Engine, IsEngine, Db, user_key, lead_key, audit_log_key, user_clash, lead_clash, audit_log_clash,
}

pub user_keys : KeepsKeys user_key user_clash
user_keys u v e = ground arith

pub lead_keys : KeepsKeys lead_key lead_clash
lead_keys l m e = ground arith

pub audit_log_keys : KeepsKeys audit_log_key audit_log_clash
audit_log_keys a b e = ground arith

abbrev pub memory_engine : Engine
memory_engine = record {
  users = memory user_key user_clash user_keys;
  leads = memory lead_key lead_clash lead_keys;
  audit_logs = memory audit_log_key audit_log_clash audit_log_keys;
}

pub memory_engine-IsEngine : IsEngine memory_engine
memory_engine-IsEngine = record {
  users = memory-IsTable user_key user_clash user_keys;
  leads = memory-IsTable lead_key lead_clash lead_keys;
  audit_logs = memory-IsTable audit_log_key audit_log_clash audit_log_keys;
}

abbrev pub empty_db : Db memory_engine
empty_db = record { users = ([], tt); leads = ([], tt); audit_logs = ([], tt) }
