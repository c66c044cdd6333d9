-- ===== src/Application/Tests.antt =====
-- Settings, sizes and health at concrete values.
use alma_lead_management_ser.Common.{
  ◌≡◌, ◌≢◌, List, arith, if◌then◌else◌, refl, none, some, true, [], ◌∷◌, codes,
}
use alma_lead_management_ser.Results.{ok, err, value_error}
use alma_lead_management_ser.Storage.Paths.{split_on}
use alma_lead_management_ser.Schemas.{strip_whitespace, lstrip, rstrip, is_space}
use alma_lead_management_ser.Engine.Memory.{memory_engine, memory_engine-IsEngine}
use alma_lead_management_ser.Engine.Fixtures.{office}
use alma_lead_management_ser.Audit.Tracker.{new_tracker, PyError}
use alma_lead_management_ser.Audit.Log.{Action, Surroundings, Trail, record_action}
use alma_lead_management_ser.Application.Recovery.{write_all, health_check-recovers}
use alma_lead_management_ser.Application.{
  health_route, answer_status, reject_default_secret_in_production, default_secret_key,
  cors_origin_list, limit_request_size, too_large,
}

production-default :
    reject_default_secret_in_production (codes "production") default_secret_key ≡ err value_error
unfolding reject_default_secret_in_production
production-default = refl

cors_origin_list-messy :
    cors_origin_list (codes " http://a ,, http://b") ≡ codes "http://a" ∷ codes "http://b" ∷ []
unfolding cors_origin_list split_on strip_whitespace lstrip rstrip is_space
cors_origin_list-messy = refl

limit_request_size-over :
    limit_request_size (λ s. some 11534337) 10 (some (codes "11534337")) ≡ ok too_large
unfolding limit_request_size
limit_request_size-over = refl

limit_request_size-garbage : limit_request_size (λ s. none) 10 (some (codes "x")) ≡ err value_error
unfolding limit_request_size
limit_request_size-garbage = refl

abbrev db_down : PyError
db_down = record { type_name = codes "OSError"; message = codes "db down" }

abbrev calm : Surroundings
calm = record {
  fresh_id = 30;
  now = 800;
  monotonic = 40;
  wall = 1040;
  fault = none;
  violation = db_down;
}

abbrev outage : Surroundings
outage = record calm { fault = some db_down }

abbrev logged_in : Action
logged_in = record {
  entity_type = codes "user";
  entity_id = 2;
  action = codes "user_login";
  user_id = some 2;
  user_email = some (codes "bob@alma.com");
  old_state = none;
  new_state = none;
  detail = none;
  lead_id = none;
}

abbrev three_logins : List (Surroundings × Action)
three_logins = (outage, logged_in) ∷ (outage, logged_in) ∷ (outage, logged_in) ∷ []

abbrev trail : Trail memory_engine
trail = record { db = office; tracker = new_tracker 0 }

health_check-recovers_example :
    let down = write_all memory_engine three_logins trail in
    let afterwards = (record_action memory_engine calm logged_in down).0 in
    (answer_status (health_route true true 40 down.tracker).1 ≡ (if true then 503 else 500))
    × (answer_status (health_route true true 50 afterwards.tracker).1 ≡ 200)
health_check-recovers_example =
    let some_fault : outage.fault ≢ none = λ e. ground arith in
    health_check-recovers memory_engine memory_engine-IsEngine three_logins trail true true 40 50
      calm logged_in (some_fault, (some_fault, (some_fault, tt))) (omega arith) refl refl refl refl
