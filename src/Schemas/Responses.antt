-- ===== src/Schemas/Responses.antt =====
-- The rest of app/schemas: the body of a state change, and the bodies of the answers.
pub mod Trail
mod Tests
use alma_lead_management_ser.Common.{
  ℕ, ◌≡◌, ◌↔◌, refl, sym, Bool, true, false, Option, none, some, List, [], ◌∷◌, map, if◌then◌else◌,
  Text, text_eq, text_eq_iff, codes, arith, length,
}
use alma_lead_management_ser.Models.{
  User, Lead, LeadState, pending, reached_out, state_value, AuditLog,
}
use alma_lead_management_ser.Engine.{Engine, IsEngine, Db}
use alma_lead_management_ser.Storage.{FileInfo}
use alma_lead_management_ser.Leads.{list_leads, reached_out_by}
use alma_lead_management_ser.Schemas.{LeadResponse, lead_response}

pub record LeadStateUpdate : Type 0 where
  pub state : LeadState

-- A value of the enumeration by its text; `none` is a ValidationError.
unfoldable pub parse_state_update : (state : Text) → Option LeadStateUpdate
parse_state_update state =
    if text_eq state (codes "PENDING")
    then some (record { state = pending })
    else if text_eq state (codes "REACHED_OUT")
    then some (record { state = reached_out })
    else none

pub record LeadListResponse : Type 0 where
  pub items : List LeadResponse
  pub total : ℕ
  pub limit : ℕ
  pub offset : ℕ

pub record ResumeUrlResponse : Type 0 where
  pub url : Text

pub record AuditLogResponse : Type 0 where
  pub id : ℕ
  pub entity_type : Text
  pub entity_id : ℕ
  pub action : Text
  pub user_id : Option ℕ
  pub user_email : Option Text
  pub old_state : Option Text
  pub new_state : Option Text
  pub detail : Option Text
  pub lead_id : Option ℕ
  pub created_at : ℕ

unfoldable pub audit_log_response : AuditLog → AuditLogResponse
audit_log_response a = record {
  id = a.id;
  entity_type = a.entity_type;
  entity_id = a.entity_id;
  action = a.action;
  user_id = a.user_id;
  user_email = a.user_email;
  old_state = a.old_state;
  new_state = a.new_state;
  detail = a.detail;
  lead_id = a.lead_id;
  created_at = a.created_at;
}

pub record AuditLogListResponse : Type 0 where
  pub items : List AuditLogResponse
  pub total : ℕ
  pub limit : ℕ
  pub offset : ℕ

unfoldable pub audit_log_list_response :
    List AuditLog × ℕ → (limit offset : ℕ) → AuditLogListResponse
audit_log_list_response page limit offset = record {
  items = map audit_log_response page.0;
  total = page.1;
  limit = limit;
  offset = offset;
}

pub record FileInfoResponse : Type 0 where
  pub key : Text
  pub size_bytes : ℕ
  pub last_modified : ℕ

unfoldable pub file_info_response : FileInfo → FileInfoResponse
file_info_response f = record {
  key = f.key;
  size_bytes = f.size_bytes;
  last_modified = f.last_modified;
}

pub record TokenResponse : Type 0 where
  pub access_token : Text
  pub token_type : Text

unfoldable pub token_response : (access_token : Text) → TokenResponse
token_response access_token = record { access_token = access_token; token_type = codes "bearer" }

-- A page of leads, each with the user whom its relationship loads; `id_text` is `str`.
unfoldable pub lead_list_response :
    (E : Engine)
    → (id_text : ℕ → Text) → Db E
    → List Lead × ℕ
    → (limit offset : ℕ) → LeadListResponse
lead_list_response E id_text db page limit offset = record {
  items = map (λ l. lead_response (id_text l.id) l (reached_out_by E l db)) page.0;
  total = page.1;
  limit = limit;
  offset = offset;
}

-- The body of a state change is accepted exactly if its text is that of a state, and means this state.
pub parse_state_update_iff :
    (state : Text) (s : LeadState)
    → (parse_state_update state ≡ some (record { state = s })) ↔ (state ≡ state_value s)
unfolding parse_state_update
parse_state_update_iff state pending =
    ground (arith, text_eq_iff state (codes "PENDING"), text_eq_iff state (codes "REACHED_OUT"))
parse_state_update_iff state reached_out =
    ground (arith, text_eq_iff state (codes "PENDING"), text_eq_iff state (codes "REACHED_OUT"))
