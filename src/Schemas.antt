-- ===== src/Schemas.antt =====
-- app/schemas/auth.py and app/schemas/lead.py: what the bodies of the requests must satisfy, and how
-- rows are shown. `EmailStr` is the validator of the package email-validator, an argument here:
-- `none` is its refusal, and otherwise it gives the normalised address.
pub mod Strip
pub mod Forms
pub mod Responses
use alma_lead_management_ser.Common.{
  ℕ, Bool, not, ◌&&◌, ◌||◌, Option, none, some, List, [], ◌∷◌, ◌++◌, length, leb, ◌==◌,
  if◌then◌else◌, Text, codes, truthy,
}
use alma_lead_management_ser.Models.{User, UserRole, Lead, LeadState, AuditLog}

-- `str.isspace` of one character.
unfoldable pub is_space : ℕ → Bool
is_space c =
    (leb 0x09 c && leb c 0x0d)
    || (leb 0x1c c && leb c 0x20)
    || (c == 0x85)
    || (c == 0xa0)
    || (c == 0x1680)
    || (leb 0x2000 c && leb c 0x200a)
    || (c == 0x2028)
    || (c == 0x2029)
    || (c == 0x202f)
    || (c == 0x205f)
    || (c == 0x3000)

unfoldable pub lstrip : Text → Text
lstrip [] = []
lstrip (c ∷ s) = let rest = lstrip s in if is_space c then rest else c ∷ s

unfoldable pub rstrip : Text → Text
rstrip [] = []
rstrip (c ∷ s) = let rest = rstrip s in if is_space c && not (truthy rest) then [] else c ∷ rest

-- `v.strip()`
unfoldable pub strip_whitespace : Text → Text
unfolding lstrip rstrip
strip_whitespace v = rstrip (lstrip v)

pub record LoginRequest : Type 0 where
  pub email : Text
  pub password : Text

pub record CreateAttorneyRequest : Type 0 where
  pub email : Text
  pub password : Text

pub record LeadCreateForm : Type 0 where
  pub first_name : Text
  pub last_name : Text
  pub email : Text

-- `Field(..., min_length=lo, max_length=hi)`
abbrev pub sized : (lo hi : ℕ) → Text → Bool
sized lo hi s = leb lo (length s) && leb (length s) hi

module _ (email_str : Text → Option Text) where
  unfoldable pub parse_login : (email password : Text) → Option LoginRequest
  parse_login email password = elim (email_str email) [
    | none ↦ none
    | some address ↦ some (record { email = address; password = password })
  ]

  unfoldable pub parse_create_attorney : (email password : Text) → Option CreateAttorneyRequest
  parse_create_attorney email password = elim (email_str email) [
    | none ↦ none
    | some address ↦
        if leb 8 (length password)
        then some (record { email = address; password = password })
        else none
  ]

  -- `_parse_lead_form`: the names are stripped before their length is tested.
  unfoldable pub parse_lead_form : (first_name last_name email : Text) → Option LeadCreateForm
  parse_lead_form first_name last_name email =
      let first = strip_whitespace first_name in
      let last = strip_whitespace last_name in
      elim (email_str email) [
        | none ↦ none
        | some address ↦
            if sized 1 100 first && sized 1 100 last
            then some (record { first_name = first; last_name = last; email = address })
            else none
      ]

pub record UserResponse : Type 0 where
  pub id : ℕ
  pub email : Text
  pub role : UserRole
  pub is_active : Bool
  pub created_at : ℕ

-- `from_attributes`: the response holds these fields of the row and no other.
unfoldable pub user_response : User → UserResponse
user_response u = record {
  id = u.id;
  email = u.email;
  role = u.role;
  is_active = u.is_active;
  created_at = u.created_at;
}

pub record ReachedOutByResponse : Type 0 where
  pub id : ℕ
  pub email : Text

pub record LeadResponse : Type 0 where
  pub id : ℕ
  pub first_name : Text
  pub last_name : Text
  pub email : Text
  pub state : LeadState
  pub created_at : ℕ
  pub updated_at : ℕ
  pub reached_out_at : Option ℕ
  pub reached_out_by : Option ReachedOutByResponse
  pub resume_url : Text

abbrev reached_out_by_response : Option User → Option ReachedOutByResponse
reached_out_by_response none = none
reached_out_by_response (some u) = some (record { id = u.id; email = u.email })

-- A lead with the user that its relationship `reached_out_by` loads; `id_text` is `str(self.id)`.
unfoldable pub lead_response : (id_text : Text) → Lead → Option User → LeadResponse
lead_response id_text l by = record {
  id = l.id;
  first_name = l.first_name;
  last_name = l.last_name;
  email = l.email;
  state = l.state;
  created_at = l.created_at;
  updated_at = l.updated_at;
  reached_out_at = l.reached_out_at;
  reached_out_by = reached_out_by_response by;
  resume_url = codes "/api/leads/" ++ (id_text ++ codes "/resume-url");
}
