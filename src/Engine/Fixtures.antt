-- ===== src/Engine/Fixtures.antt =====
-- Rows for the tests: an administrator, two attorneys of whom one is deactivated, and three leads.
use alma_lead_management_ser.Common.{true, false, none, some, [], ◌∷◌, codes, arith}
use alma_lead_management_ser.Models.{User, Lead, AuditLog, admin, attorney, pending, reached_out}
use alma_lead_management_ser.Engine.{Db}
use alma_lead_management_ser.Engine.Memory.{memory_engine}

abbrev pub alice : User
alice = record {
  id = 1;
  email = codes "alice@alma.com";
  hashed_password = codes "s:secret-pw";
  role = admin;
  is_active = true;
  created_at = 100;
}

abbrev pub bob : User
bob = record {
  id = 2;
  email = codes "bob@alma.com";
  hashed_password = codes "s:bobs-word";
  role = attorney;
  is_active = true;
  created_at = 200;
}

abbrev pub carol : User
carol = record {
  id = 3;
  email = codes "carol@alma.com";
  hashed_password = codes "s:carols-word";
  role = attorney;
  is_active = false;
  created_at = 300;
}

abbrev pub fresh_lead : Lead
fresh_lead = record {
  id = 10;
  first_name = codes "Jane";
  last_name = codes "Doe";
  email = codes "jane@x.org";
  resume_path = codes "uploads/10.pdf";
  state = pending;
  created_at = 500;
  updated_at = 500;
  reached_out_at = none;
  reached_out_by_id = none;
}

abbrev pub called_lead : Lead
called_lead = record fresh_lead {
  id = 11;
  state = reached_out;
  created_at = 600;
  updated_at = 650;
  reached_out_at = some 650;
  reached_out_by_id = some 2;
}

abbrev pub newest_lead : Lead
newest_lead = record fresh_lead { id = 12; created_at = 700; updated_at = 700 }

abbrev pub creation_entry : AuditLog
creation_entry = record {
  id = 20;
  entity_type = codes "lead";
  entity_id = 10;
  action = codes "lead_created";
  user_id = none;
  user_email = none;
  old_state = none;
  new_state = none;
  detail = some (codes "Lead submitted by Jane Doe (jane@x.org)");
  lead_id = some 10;
  created_at = 501;
}

abbrev pub change_entry : AuditLog
change_entry = record {
  id = 21;
  entity_type = codes "lead";
  entity_id = 11;
  action = codes "state_change";
  user_id = some 2;
  user_email = some (codes "bob@alma.com");
  old_state = some (codes "PENDING");
  new_state = some (codes "REACHED_OUT");
  detail = none;
  lead_id = some 11;
  created_at = 651;
}

abbrev pub office : Db memory_engine
office = record {
  users = (alice ∷ bob ∷ carol ∷ [], omega arith);
  leads = (fresh_lead ∷ called_lead ∷ newest_lead ∷ [], omega arith);
  audit_logs = (creation_entry ∷ change_entry ∷ [], omega arith);
}
