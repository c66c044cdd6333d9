-- ===== src/Audit/Sanitize/Laws.antt =====
-- What `_sanitize` lets through.
use alma_lead_management_ser.Common.{
  ℕ, ◌≤◌, ◌≡◌, ◌↔◌, refl, Bool, true, not, Option, none, some, Text, take, select, All, All-take,
  select-All, select-of-All, take-of-short, take-append-drop, drop, ◌++◌, length, length-take,
  arith, ap, ◌∙◌, sym, subst,
}
use mathlib.Core.Option
use alma_lead_management_ser.Audit.Sanitize.{is_control_char, strip_control_chars, sanitize}

-- Text that no rule of `_sanitize` touches.
abbrev pub IsClean : ℕ → Text → Type 0
IsClean max_length s = All (λ c. not (is_control_char c) ≡ true) s × (length s ≤ max_length)

-- What comes out holds no control character of the class and is no longer than the bound.
pub sanitize-IsClean :
    (max_length : ℕ) (value : Text)
    → (s : Text) × (sanitize max_length (some value) ≡ some s) × IsClean max_length s
unfolding sanitize
sanitize-IsClean max_length value = (
  take max_length (select printable value),
  refl,
  (
    All-take _ max_length (select printable value) (select-All printable value),
    omega (arith, length-take max_length (select printable value)),
  ),
)
  where
    printable : ℕ → Bool
    printable c = not (is_control_char c)

-- Clean text is stored as it is; and only clean text is.
pub sanitize_iff :
    (max_length : ℕ) (value : Text)
    → (sanitize max_length (some value) ≡ some value) ↔ IsClean max_length value
unfolding sanitize
sanitize_iff max_length value = (
  (λ e. subst (IsClean max_length) (Option.some-injective _ _ (sym (clean.1) ∙ e)) clean.2),
  (λ h.
      ap some
        (ap (take max_length) (select-of-All _ value h.0) ∙ take-of-short max_length value h.1)),
)
  where
    clean : (s : Text) × (sanitize max_length (some value) ≡ some s) × IsClean max_length s
    clean = sanitize-IsClean max_length value

-- A second pass changes nothing, for values that are absent too.
pub sanitize_idempotent :
    (max_length : ℕ) (value : Option Text)
    → sanitize max_length (sanitize max_length value) ≡ sanitize max_length value
sanitize_idempotent max_length none = unfold sanitize in refl
sanitize_idempotent max_length (some value) =
    let (s, e, clean) = sanitize-IsClean max_length value in
    rw e ((sanitize_iff max_length s).1 clean)

-- Of the printable characters of the value the result is a prefix: none is reordered, replaced or
-- skipped, and it is all of them when they fit.
pub sanitize-prefix :
    (max_length : ℕ) (value : Text)
    → (s rest : Text) × (sanitize max_length (some value) ≡ some s)
      × (strip_control_chars value ≡ s ++ rest)
      × (length (strip_control_chars value) ≤ max_length → s ≡ strip_control_chars value)
unfolding sanitize
sanitize-prefix max_length value =
    let kept = strip_control_chars value in
    (
      take max_length kept,
      drop max_length kept,
      refl,
      sym (take-append-drop max_length kept),
      λ h. take-of-short max_length kept h,
    )
