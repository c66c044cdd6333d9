-- ===== src/Seed/Tests.antt =====
-- Two starts on the office of the fixtures: Alice is there already, Dave is seeded by the first.
use alma_lead_management_ser.Common.{◌≡◌, refl, codes, length}
use alma_lead_management_ser.Results.{ok}
use alma_lead_management_ser.Engine.Memory.{memory_engine, memory_engine-IsEngine}
use alma_lead_management_ser.Engine.Fixtures.{office}
use alma_lead_management_ser.Security.Memory.{memory_crypto}
use alma_lead_management_ser.Auth.{user_by_email, list_users}
use alma_lead_management_ser.Auth.Fixtures.{office-UniqueEmails}
use alma_lead_management_ser.Seed.{SeedSettings, Start, start, seed_admin, seed_attorney, seed_user}
use alma_lead_management_ser.Seed.Idempotence.{start_idempotent}

abbrev configured : SeedSettings
configured = record {
  admin_email = codes "alice@alma.com";
  admin_password = codes "secret-pw";
  seed_attorney_email = codes "dave@alma.com";
  seed_attorney_password = codes "daves-word";
}

abbrev monday : Start
monday = record { now = 900; admin_id = 40; attorney_id = 41; salt = codes "s:" }

abbrev tuesday : Start
tuesday = record { now = 990; admin_id = 50; attorney_id = 51; salt = codes "t:" }

start-monday : (start memory_engine memory_crypto configured monday office).0 ≡ ok tt
unfolding start seed_admin seed_attorney seed_user user_by_email
start-monday = refl

start-seeds_one :
    length (list_users memory_engine (start memory_engine memory_crypto configured monday office).1)
    ≡ 4
unfolding start seed_admin seed_attorney seed_user user_by_email list_users
start-seeds_one = refl

start_idempotent_example :
    let db' = (start memory_engine memory_crypto configured monday office).1 in
    start memory_engine memory_crypto configured tuesday db' ≡ (ok tt, db')
start_idempotent_example =
    start_idempotent memory_engine memory_engine-IsEngine memory_crypto configured office monday
      tuesday office-UniqueEmails start-monday
