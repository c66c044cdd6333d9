-- ===== src/Schemas/Strip.antt =====
-- `str.strip`.
use alma_lead_management_ser.Common.{
  ℕ, ◌≡◌, refl, ap, ◌∙◌, true, false, not, ◌&&◌, [], ◌∷◌, Text, truthy, arith, if◌then◌else◌, All,
}
use alma_lead_management_ser.Schemas.{is_space, lstrip, rstrip, strip_whitespace}

abbrev pub NoLeading : Text → Type 0
NoLeading [] = Unit
NoLeading (c ∷ s) = is_space c ≡ false

abbrev pub NoTrailing : Text → Type 0
NoTrailing [] = Unit
NoTrailing (c ∷ []) = is_space c ≡ false
NoTrailing (c ∷ d ∷ s) = NoTrailing (d ∷ s)

-- No whitespace at either end.
abbrev pub IsTrimmed : Text → Type 0
IsTrimmed s = NoLeading s × NoTrailing s

lstrip-NoLeading : (s : Text) → NoLeading (lstrip s)
unfolding lstrip
lstrip-NoLeading [] = tt
lstrip-NoLeading (c ∷ s) = ground (arith, lstrip-NoLeading s)

rstrip_step : ℕ → Text → Text
rstrip_step c rest = if is_space c && not (truthy rest) then [] else c ∷ rest

rstrip_step-NoTrailing : (c : ℕ) (rest : Text) → NoTrailing rest → NoTrailing (rstrip_step c rest)
unfolding rstrip_step
rstrip_step-NoTrailing c [] h = ground arith
rstrip_step-NoTrailing c (d ∷ rest) h = ground arith

rstrip-NoTrailing : (s : Text) → NoTrailing (rstrip s)
unfolding rstrip rstrip_step
rstrip-NoTrailing [] = tt
rstrip-NoTrailing (c ∷ s) = rstrip_step-NoTrailing c (rstrip s) (rstrip-NoTrailing s)

rstrip-NoLeading : (s : Text) → NoLeading s → NoLeading (rstrip s)
unfolding rstrip
rstrip-NoLeading [] h = tt
rstrip-NoLeading (c ∷ s) h = ground arith

-- The result has no whitespace at either end.
pub strip_whitespace-IsTrimmed : (s : Text) → IsTrimmed (strip_whitespace s)
unfolding strip_whitespace
strip_whitespace-IsTrimmed s =
    (rstrip-NoLeading (lstrip s) (lstrip-NoLeading s), rstrip-NoTrailing (lstrip s))

lstrip_id : (s : Text) → NoLeading s → lstrip s ≡ s
unfolding lstrip
lstrip_id [] h = refl
lstrip_id (c ∷ s) h = ground arith

rstrip_id : (s : Text) → NoTrailing s → rstrip s ≡ s
unfolding rstrip
rstrip_id [] h = refl
rstrip_id (c ∷ []) h = ground arith
rstrip_id (c ∷ d ∷ s) h = ap (rstrip_of c) (rstrip_id (d ∷ s) h) ∙ keeps c d s
  where
    rstrip_of : ℕ → Text → Text
    rstrip_of c rest = if is_space c && not (truthy rest) then [] else c ∷ rest

    keeps : (c d : ℕ) (s : Text) → (if is_space c && false then [] else c ∷ d ∷ s) ≡ c ∷ d ∷ s
    keeps c d s = ground arith

-- A text that is trimmed stays as it is.
pub strip_whitespace_id : (s : Text) → IsTrimmed s → strip_whitespace s ≡ s
unfolding strip_whitespace
strip_whitespace_id s h = ap rstrip (lstrip_id s h.0) ∙ rstrip_id s h.1

-- Nothing is left of whitespace.
pub strip_whitespace_blank : (s : Text) → All (λ c. is_space c ≡ true) s → strip_whitespace s ≡ []
unfolding strip_whitespace lstrip rstrip
strip_whitespace_blank [] h = refl
strip_whitespace_blank (c ∷ s) h = ground (arith, strip_whitespace_blank s h.1)
