-- ===== src/Schemas/Forms/Tests.antt =====
-- Forms, and the theorems at them.
use alma_lead_management_ser.Common.{◌≡◌, refl, some, Option, Text, codes}
use alma_lead_management_ser.Schemas.{LeadCreateForm, is_space, strip_whitespace, parse_lead_form}

-- A validator that takes every address as it is.
abbrev any_address : Text → Option Text
any_address s = some s

abbrev jane : LeadCreateForm
jane = record { first_name = codes "Jane"; last_name = codes "Doe"; email = codes "j@x.org" }

parse-jane :
    parse_lead_form any_address (codes "  Jane ") (codes "Doe") (codes "j@x.org") ≡ some jane
unfolding parse_lead_form strip_whitespace is_space
parse-jane = refl
