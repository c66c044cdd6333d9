-- ===== src/Audit/Sanitize.antt =====
-- `_sanitize` of app/services/audit_service.py.
pub mod Laws
mod Tests
use alma_lead_management_ser.Common.{
  ℕ, Bool, ◌&&◌, ◌||◌, not, Option, none, some, leb, ◌==◌, Text, take, select,
}

abbrev pub max_short : ℕ
max_short = 50

abbrev pub max_detail : ℕ
max_detail = 1000

-- The class `[\x00-\x08\x0b\x0c\x0e-\x1f\x7f]`.
unfoldable pub is_control_char : ℕ → Bool
is_control_char c =
    leb c 0x08 || (c == 0x0b) || (c == 0x0c) || (leb 0x0e c && leb c 0x1f) || (c == 0x7f)

-- `_CONTROL_CHARS.sub("", value)`
unfoldable pub strip_control_chars : Text → Text
strip_control_chars = select (λ c. not (is_control_char c))

unfoldable pub sanitize : ℕ → Option Text → Option Text
unfolding strip_control_chars
sanitize max_length none = none
sanitize max_length (some value) = some (take max_length (strip_control_chars value))
