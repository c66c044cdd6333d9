-- ===== src/Models.antt =====
-- The rows of the three tables: app/models/user.py, app/models/lead.py, app/models/audit_log.py.
-- A UUID is its 128-bit integer, a time is a number of seconds since an origin.
use alma_lead_management_ser.Common.{
  ℕ, ◌≡◌, ◌↔◌, Bool, true, false, Option, none, Text, codes, arith,
}

pub data UserRole : Type 0 where
  admin attorney : UserRole

-- `role.value`
abbrev pub role_value : UserRole → Text
role_value admin = codes "ADMIN"
role_value attorney = codes "ATTORNEY"

abbrev pub role_eq : UserRole → UserRole → Bool
role_eq admin admin = true
role_eq attorney attorney = true
role_eq _ _ = false

pub role_eq_iff : (a b : UserRole) → (role_eq a b ≡ true) ↔ (a ≡ b)
role_eq_iff admin b = ground arith
role_eq_iff attorney b = ground arith

pub record User : Type 0 where
  pub id : ℕ
  pub email : Text
  pub hashed_password : Text
  pub role : UserRole
  pub is_active : Bool
  pub created_at : ℕ

pub data LeadState : Type 0 where
  pending reached_out : LeadState

-- `state.value`
abbrev pub state_value : LeadState → Text
state_value pending = codes "PENDING"
state_value reached_out = codes "REACHED_OUT"

abbrev pub state_eq : LeadState → LeadState → Bool
state_eq pending pending = true
state_eq reached_out reached_out = true
state_eq _ _ = false

pub state_eq_iff : (a b : LeadState) → (state_eq a b ≡ true) ↔ (a ≡ b)
state_eq_iff pending b = ground arith
state_eq_iff reached_out b = ground arith

pub record Lead : Type 0 where
  pub id : ℕ
  pub first_name : Text
  pub last_name : Text
  pub email : Text
  pub resume_path : Text
  pub state : LeadState
  pub created_at : ℕ
  pub updated_at : ℕ
  pub reached_out_at : Option ℕ
  pub reached_out_by_id : Option ℕ

pub record AuditLog : Type 0 where
  pub id : ℕ
  pub entity_type : Text
  pub entity_id : ℕ
  pub action : Text
  pub user_id : Option ℕ
  pub user_email : Option Text
  pub old_state : Option Text
  pub new_state : Option Text
  pub detail : Option Text
  pub lead_id : Option ℕ
  pub created_at : ℕ

-- The constructor calls `User(...)` and `Lead(...)` with the columns' defaults filled in at the
-- insert: a fresh key, and the time.
abbrev pub new_user : (id now : ℕ) → (email hashed_password : Text) → UserRole → User
new_user id now email hashed_password role = record {
  id = id;
  email = email;
  hashed_password = hashed_password;
  role = role;
  is_active = true;
  created_at = now;
}

abbrev pub new_lead : (id now : ℕ) → (first_name last_name email resume_path : Text) → Lead
new_lead id now first_name last_name email resume_path = record {
  id = id;
  first_name = first_name;
  last_name = last_name;
  email = email;
  resume_path = resume_path;
  state = pending;
  created_at = now;
  updated_at = now;
  reached_out_at = none;
  reached_out_by_id = none;
}
