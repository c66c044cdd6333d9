-- ===== src/Application.antt =====
-- app/core/config.py beyond plain settings, and of app/main.py the limit on the size of a request and
-- the health check. `int(content_length)` is an argument: `none` is its ValueError, and a negative
-- number counts as 0.
pub mod Origins
pub mod Health
pub mod Recovery
pub mod Limits
pub mod Settings
mod Tests
use alma_lead_management_ser.Common.{
  ℕ, ◌+◌, ◌*◌, Bool, true, false, not, ◌&&◌, Option, none, some, List, [], ◌∷◌, map, select, ltb,
  if◌then◌else◌, Text, text_eq, truthy, codes,
}
use alma_lead_management_ser.Results.{Result, ok, err, value_error}
use alma_lead_management_ser.Storage.Paths.{split_on}
use alma_lead_management_ser.Schemas.{strip_whitespace}
use alma_lead_management_ser.Audit.Tracker.{AuditFailureTracker, AuditHealth, health}

abbrev pub default_secret_key : Text
default_secret_key = codes "local-dev-secret-key-not-for-production"

-- `Settings._reject_default_secret_in_production`, on the two settings that it reads.
unfoldable pub reject_default_secret_in_production :
    (environment secret_key : Text) → Result (Unit {0})
reject_default_secret_in_production environment secret_key =
    if not (text_eq environment (codes "development")) && text_eq secret_key default_secret_key
    then err value_error
    else ok tt

-- `[o.strip() for o in self.cors_origins.split(",") if o.strip()]`
unfoldable pub cors_origin_list : (cors_origins : Text) → List Text
cors_origin_list cors_origins =
    map strip_whitespace (select (λ o. truthy (strip_whitespace o)) (split_on b',' cors_origins))

-- What the middleware does with a request.
pub data Passage : Type 0 where
  passed_on : Passage
  too_large : Passage

-- `content_length` as `int` reads it
abbrev size_check : (max_request_bytes : ℕ) → Option ℕ → Result Passage
size_check max_request_bytes none = err value_error
size_check max_request_bytes (some n) =
    ok (if ltb max_request_bytes n then too_large else passed_on)

unfoldable pub limit_request_size :
    (int : Text → Option ℕ)
    → (max_upload_size_mb : ℕ) → (content_length : Option Text) → Result Passage
limit_request_size int mb none = ok passed_on
limit_request_size int mb (some header) =
    if truthy header then size_check ((mb + 1) * 1024 * 1024) (int header) else ok passed_on

pub record HealthBody : Type 0 where
  pub status_code : ℕ
  pub status : Text
  pub database : Text
  pub audit : AuditHealth

-- The body of the handler `health`, which runs once `get_db` has its connection (`health_route` has
-- both): whether `SELECT 1` went through, the clock, and the tracker that `audit_health` asks.
unfoldable pub health_check :
    (db_ok : Bool) → (now : ℕ) → AuditFailureTracker → AuditFailureTracker × HealthBody
health_check db_ok now tracker =
    let (tracker', audit) = health now tracker in
    let healthy = db_ok && audit.healthy in
    (
      tracker',
      record {
        status_code = if healthy then 200 else 503;
        status = if healthy then codes "ok" else codes "degraded";
        database = if db_ok then codes "connected" else codes "disconnected";
        audit = audit;
      },
    )

-- The route: `get_db` opens its connection before the handler runs, so where that raises the handler
-- is not reached, and `none` is the framework's answer 500.
unfoldable pub health_route :
    (connects db_ok : Bool)
    → (now : ℕ) → AuditFailureTracker
    → AuditFailureTracker × Option HealthBody
health_route connects db_ok now tracker =
    let answer = health_check db_ok now tracker in
    if connects then (answer.0, some answer.1) else (tracker, none)

-- The status code of the answer.
abbrev pub answer_status : Option HealthBody → ℕ
answer_status none = 500
answer_status (some body) = body.status_code
