-- ===== src/Routes/Auth/Tests.antt =====
-- Logins to the office of the fixtures.
use alma_lead_management_ser.Common.{◌≡◌, refl, some, [], ◌∷◌, codes, arith}
use alma_lead_management_ser.Results.{ok}
use alma_lead_management_ser.Engine.Memory.{memory_engine, memory_engine-IsEngine}
use alma_lead_management_ser.Engine.Fixtures.{office, bob}
use alma_lead_management_ser.Security.{hash_password}
use alma_lead_management_ser.Security.Memory.{memory_crypto, memory_crypto-IsCrypto}
use alma_lead_management_ser.Auth.Fixtures.{office-UniqueEmails}
use alma_lead_management_ser.Dependencies.Login.{token_of, HasPassword}
use alma_lead_management_ser.Routes.{Moment, audit}
use alma_lead_management_ser.Routes.Auth.{login, login_action}
use alma_lead_management_ser.Dependencies.Fixtures.{an_hour}
use alma_lead_management_ser.Routes.Auth.Login.{login-audits}

abbrev moment : Moment
moment = record { now = 1100; fresh_id = 4; salt = codes "s:" }

bobs_password : HasPassword memory_crypto (codes "bobs-word") bob
unfolding hash_password
bobs_password = (codes "s:", refl)

login-audits_example :
    login memory_engine memory_crypto an_hour moment
      (λ e. some e)
      (codes "bob@alma.com")
      (codes "bobs-word")
      office
    ≡ (
      ok (
        token_of memory_crypto an_hour 1100 bob,
        audit (login_action 2 (codes "bob@alma.com")) ∷ [],
      ),
      office,
    )
login-audits_example =
    login-audits memory_engine memory_engine-IsEngine memory_crypto memory_crypto-IsCrypto an_hour
      moment (λ e. some e) office 2 bob (codes "bob@alma.com") (codes "bobs-word")
      office-UniqueEmails (omega arith) refl refl bobs_password refl
