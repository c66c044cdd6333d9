-- ===== src/Application/Origins.antt =====
-- The origins that may call the service from a browser.
use alma_lead_management_ser.Common.{
  ◌≡◌, true, List, [], ◌∷◌, map, select, Text, truthy, All, Bool-cases, inl, inr,
}
use alma_lead_management_ser.Storage.Paths.{split_on}
use alma_lead_management_ser.Schemas.{strip_whitespace}
use alma_lead_management_ser.Schemas.Strip.{IsTrimmed, strip_whitespace-IsTrimmed}
use alma_lead_management_ser.Application.{cors_origin_list}

-- An origin without whitespace at its ends, and not empty.
abbrev pub IsOrigin : Text → Type 0
IsOrigin o = IsTrimmed o × (truthy o ≡ true)

kept-IsOrigin :
    (os : List Text)
    → All IsOrigin (map strip_whitespace (select (λ o. truthy (strip_whitespace o)) os))
kept-IsOrigin [] = tt
kept-IsOrigin (o ∷ os) = elim (Bool-cases (truthy (strip_whitespace o))) [
  | inl full ↦ rw full ((strip_whitespace-IsTrimmed o, full), kept-IsOrigin os)
  | inr blank ↦ rw blank (kept-IsOrigin os)
]

-- However the setting is written, with spaces and empty items, each listed origin is trimmed and not
-- empty.
pub cors_origin_list-IsOrigin : (cors_origins : Text) → All IsOrigin (cors_origin_list cors_origins)
unfolding cors_origin_list
cors_origin_list-IsOrigin cors_origins = kept-IsOrigin (split_on b',' cors_origins)
