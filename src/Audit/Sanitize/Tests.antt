-- ===== src/Audit/Sanitize/Tests.antt =====
-- Values of `_sanitize`, and its theorems at them.
use alma_lead_management_ser.Common.{◌≡◌, refl, some, [], ◌∷◌, Text}
use alma_lead_management_ser.Audit.Sanitize.{sanitize, is_control_char}

-- A NUL, a line feed and a DEL around letters.
abbrev noisy : Text
noisy = b'a' ∷ 0x00 ∷ b'b' ∷ 0x0a ∷ 0x7f ∷ b'c' ∷ []

sanitize-noisy : sanitize 3 (some noisy) ≡ some (b'a' ∷ b'b' ∷ 0x0a ∷ [])
unfolding sanitize is_control_char
sanitize-noisy = refl
