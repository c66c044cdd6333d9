-- ===== src/Schemas/Forms.antt =====
-- What a validated form satisfies.
mod Tests
use alma_lead_management_ser.Common.{
  ℕ, ◌≤◌, ◌≡◌, ◌⊎◌, refl, Bool, true, false, Option, none, some, List, [], ◌∷◌, length, sym, subst,
  Text, arith, All, Option-cases, inl, inr,
}
use alma_lead_management_ser.Schemas.{
  is_space, strip_whitespace, LeadCreateForm, CreateAttorneyRequest, parse_lead_form,
  parse_create_attorney,
}
use alma_lead_management_ser.Schemas.Strip.{
  IsTrimmed, strip_whitespace-IsTrimmed, strip_whitespace_blank, strip_whitespace_id,
}

-- A name as it is stored: trimmed, and of 1 to 100 characters, as the columns want it.
abbrev pub IsName : Text → Type 0
IsName s = IsTrimmed s × (1 ≤ length s) × (length s ≤ 100)

module _ (email_str : Text → Option Text) (first_name last_name email : Text) where
  -- A form that is accepted has two trimmed names of 1 to 100 characters, which are the given names
  -- without the whitespace at their ends, and the address that the validator made of the email.
  pub parse_lead_form-accepts :
      (form : LeadCreateForm)
      → parse_lead_form email_str first_name last_name email ≡ some form
      → IsName form.first_name
        × IsName form.last_name
        × (form.first_name ≡ strip_whitespace first_name)
        × (form.last_name ≡ strip_whitespace last_name)
        × (email_str email ≡ some form.email)
  unfolding parse_lead_form
  parse_lead_form-accepts form h =
      let first : strip_whitespace first_name ≡ form.first_name = ground arith in
      let last : strip_whitespace last_name ≡ form.last_name = ground arith in
      (
        (subst IsTrimmed first (strip_whitespace-IsTrimmed first_name), ground arith, ground arith),
        (subst IsTrimmed last (strip_whitespace-IsTrimmed last_name), ground arith, ground arith),
        sym first,
        sym last,
        ground arith,
      )

  -- A first name or a last name of whitespace only is refused, and so is an email that the
  -- validator refuses.
  pub parse_lead_form-refuses :
      All (λ c. is_space c ≡ true) first_name
        ⊎ All (λ c. is_space c ≡ true) last_name
        ⊎ (email_str email ≡ none)
      → parse_lead_form email_str first_name last_name email ≡ none
  unfolding parse_lead_form
  parse_lead_form-refuses (inl h) = ground (arith, strip_whitespace_blank first_name h)
  parse_lead_form-refuses (inr (inl h)) = ground (arith, strip_whitespace_blank last_name h)
  parse_lead_form-refuses (inr (inr h)) = ground arith

  -- Names of 1 to 100 characters without whitespace at their ends are taken as they are.
  pub parse_lead_form-keeps :
      (address : Text)
      → IsName first_name
      → IsName last_name
      → email_str email ≡ some address
      → parse_lead_form email_str first_name last_name email
        ≡ some (record { first_name = first_name; last_name = last_name; email = address })
  unfolding parse_lead_form
  parse_lead_form-keeps address f l e =
      ground (arith, strip_whitespace_id first_name f.0, strip_whitespace_id last_name l.0)
