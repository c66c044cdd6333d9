-- ===== src/Application/Limits.antt =====
-- `_rate_limit_handler` of app/main.py: the answer to a request over the limit of slowapi. Times are in
-- microseconds. The end of the window is `none` if slowapi has noted no limit on the request, or if
-- asking for it raises.
use alma_lead_management_ser.Common.{
  ℕ, suc, ◌+◌, ◌*◌, ◌-◌, ◌/◌, ◌≤◌, ◌<◌, ◌≡◌, ◌++◌, refl, Option, none, some, Text, codes, arith,
}

pub record LimitedResponse : Type 0 where
  pub status_code : ℕ
  pub detail : Text
  -- the header, in seconds
  pub retry_after : Option ℕ

unfoldable pub rate_limit_handler :
    (window_end : Option ℕ) → (now : ℕ) → (detail : Text) → LimitedResponse
rate_limit_handler window_end now detail = record {
  status_code = 429;
  detail = codes "Rate limit exceeded: " ++ detail;
  retry_after = elim window_end [ none ↦ none | some end ↦ some ((end - now) / 1000000) ];
}

-- The seconds that the header names end within the last second of the window, or are 0 where it is over.
pub rate_limit_handler_bounds :
    (end now : ℕ) (detail : Text)
    → now ≤ end
    → (n : ℕ) × ((rate_limit_handler (some end) now detail).retry_after ≡ some n)
      × (now + n * 1000000 ≤ end)
      × (end < now + suc n * 1000000)
unfolding rate_limit_handler
rate_limit_handler_bounds end now detail h = ((end - now) / 1000000, refl, omega arith, omega arith)
