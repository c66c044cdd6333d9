-- ===== src/Storage/Keys.antt =====
-- The keys under which uploaded files are stored.
use alma_lead_management_ser.Common.{
  ℕ, ◌≡◌, ◌≢◌, Option, none, some, List, [], ◌∷◌, Text, codes, select, All, All-append, subst,
  arith, Option-cases, inl, inr,
}
use alma_lead_management_ser.Storage.{build_key}
use alma_lead_management_ser.Storage.Paths.{
  split_on, push_head, is_part, last_text, name, from_last_dot, name_suffix, suffix,
}

-- A text without "/".
abbrev pub NoSlash : Text → Type 0
NoSlash = All (λ c. c ≢ b'/')

push_head-NoSlash :
    (c : ℕ) (ps : List Text) → c ≢ b'/' → All NoSlash ps → All NoSlash (push_head c ps)
push_head-NoSlash c [] n h = ((n, tt), tt)
push_head-NoSlash c (p ∷ ps) n h = ((n, h.0), h.1)

split_on-NoSlash : (s : Text) → All NoSlash (split_on b'/' s)
unfolding split_on
split_on-NoSlash [] = (tt, tt)
split_on-NoSlash (c ∷ s) = ground (
  arith,
  split_on-NoSlash s,
  λ (n : c ≢ b'/'). push_head-NoSlash c (split_on b'/' s) n (split_on-NoSlash s),
)

select-NoSlash : (ps : List Text) → All NoSlash ps → All NoSlash (select is_part ps)
select-NoSlash [] h = tt
select-NoSlash (p ∷ ps) h = ground (arith, select-NoSlash ps h.1)

last_text-NoSlash :
    (d : Text) (ps : List Text) → NoSlash d → All NoSlash ps → NoSlash (last_text d ps)
last_text-NoSlash d [] hd h = hd
last_text-NoSlash d (p ∷ ps) hd h = last_text-NoSlash p ps h.0 h.1

name-NoSlash : (path : Text) → NoSlash (name path)
unfolding name
name-NoSlash path =
    last_text-NoSlash [] _ tt (select-NoSlash (split_on b'/' path) (split_on-NoSlash path))

from_last_dot-NoSlash : (s t : Text) → NoSlash s → from_last_dot s ≡ some t → NoSlash t
unfolding from_last_dot
from_last_dot-NoSlash [] t h e = absurd (ground arith)
from_last_dot-NoSlash (c ∷ s) t h e = elim (Option-cases (from_last_dot s)) [
  | inl n ↦ (let same : c ∷ s ≡ t = ground arith in subst NoSlash same h)
  | inr (u, q) ↦ from_last_dot-NoSlash s t h.1 (ground arith)
]

name_suffix-NoSlash : (s : Text) → NoSlash s → NoSlash (name_suffix s)
unfolding name_suffix
name_suffix-NoSlash [] h = tt
name_suffix-NoSlash (c ∷ s) h = elim (Option-cases (from_last_dot s)) [
  | inl n ↦ ground arith
  | inr (u, q) ↦ ground (arith, from_last_dot-NoSlash s u h.1 q)
]

-- A key contains no "/" as long as the text of a UUID contains none, whatever name the client gives
-- its file.
pub build_key-NoSlash :
    (uuid : Text) (original_filename : Option Text)
    → NoSlash uuid
    → NoSlash (build_key uuid original_filename)
unfolding build_key suffix
build_key-NoSlash uuid none h = All-append _ uuid (codes ".pdf") h (ground arith)
build_key-NoSlash uuid (some []) h = All-append _ uuid (codes ".pdf") h (ground arith)
build_key-NoSlash uuid (some (c ∷ s)) h =
    All-append _ uuid (suffix (c ∷ s)) h (name_suffix-NoSlash (name (c ∷ s)) (name-NoSlash (c ∷ s)))
