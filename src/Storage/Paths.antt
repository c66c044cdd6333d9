-- ===== src/Storage/Paths.antt =====
-- `pathlib.PurePosixPath(s).suffix`, and the order of texts.
use alma_lead_management_ser.Common.{
  ℕ, Bool, true, false, not, ◌&&◌, ◌||◌, Option, none, some, List, [], ◌∷◌, length, leb, ltb, ◌==◌,
  if◌then◌else◌, Text, text_eq, truthy, codes, select, starts_with, ◌++◌,
}

-- `s.split(sep)` with a separator of one character.
abbrev pub push_head : ℕ → List Text → List Text
push_head c [] = (c ∷ []) ∷ []
push_head c (p ∷ ps) = (c ∷ p) ∷ ps

unfoldable pub split_on : (sep : ℕ) → Text → List Text
split_on sep [] = [] ∷ []
split_on sep (c ∷ s) = let rest = split_on sep s in if c == sep then [] ∷ rest else push_head c rest

-- The part of a path after its last "/"; empty parts and "." do not count.
abbrev pub is_part : Text → Bool
is_part p = truthy p && not (text_eq p (codes "."))

-- The path without what does not count: "//" at the start is kept, a longer run of "/" is one.
abbrev pub root : Text → Text
root path =
    if starts_with path (codes "///")
    then codes "/"
    else if starts_with path (codes "//")
    then codes "//"
    else if starts_with path (codes "/")
    then codes "/"
    else []

abbrev join_parts : List Text → Text
join_parts [] = []
join_parts (p ∷ []) = p
join_parts (p ∷ q ∷ ps) = p ++ (codes "/" ++ join_parts (q ∷ ps))

-- `str(Path(path))`
unfoldable pub path_text : Text → Text
path_text path =
    let s = root path ++ join_parts (select is_part (split_on b'/' path)) in
    if truthy s then s else codes "."

abbrev pub last_text : Text → List Text → Text
last_text d [] = d
last_text d (p ∷ ps) = last_text p ps

unfoldable pub name : Text → Text
name path = last_text [] (select is_part (split_on b'/' path))

-- The text from the last dot on.
unfoldable pub from_last_dot : Text → Option Text
from_last_dot [] = none
from_last_dot (c ∷ s) = elim (from_last_dot s) [
  | some t ↦ some t
  | none ↦ if c == b'.' then some (c ∷ s) else none
]

-- `i = name.rfind('.')`, and `name[i:] if 0 < i < len(name) - 1 else ''`.
unfoldable pub name_suffix : Text → Text
name_suffix [] = []
name_suffix (c ∷ s) = elim (from_last_dot s) [
  | none ↦ []
  | some t ↦ if leb 2 (length t) then t else []
]

unfoldable pub suffix : Text → Text
suffix path = name_suffix (name path)

-- `a <= b` on str.
abbrev pub text_leb : Text → Text → Bool
text_leb [] b = true
text_leb (x ∷ a) [] = false
text_leb (x ∷ a) (y ∷ b) = ltb x y || ((x == y) && text_leb a b)
