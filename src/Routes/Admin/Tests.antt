-- ===== src/Routes/Admin/Tests.antt =====
-- Requests to the administration of the fixtures' office.
use alma_lead_management_ser.Common.{◌≡◌, refl, false, some, List, [], ◌∷◌, codes, arith, Text}
use alma_lead_management_ser.Results.{ok}
use alma_lead_management_ser.Models.{User, admin}
use alma_lead_management_ser.Engine.{Db}
use alma_lead_management_ser.Engine.Memory.{memory_engine, memory_engine-IsEngine}
use alma_lead_management_ser.Engine.Fixtures.{office, alice, bob}
use alma_lead_management_ser.Security.Memory.{memory_crypto}
use alma_lead_management_ser.Auth
use alma_lead_management_ser.Dependencies.Login.{token_of}
use alma_lead_management_ser.Routes.{Moment}
use alma_lead_management_ser.Routes.Admin.Safety.{
  Change, creates, deactivates, deletes, answer_all, HasActiveAdmin, answer_all-HasActiveAdmin,
}
use alma_lead_management_ser.Dependencies.Fixtures.{an_hour}
use alma_lead_management_ser.Routes.Admin.Interleaving.{deactivate_user-mutual}

abbrev moment : Moment
moment = record { now = 1100; fresh_id = 4; salt = codes "s:" }

abbrev token_for : User → Text
token_for u = token_of memory_crypto an_hour 1000 u

-- Bob tries to delete Alice, who creates Dave, tries to deactivate herself, and deletes Bob.
abbrev a_day : List (Moment × Text × Change)
a_day =
    (moment, token_for bob, deletes 1)
    ∷ (moment, token_for alice, creates (codes "dave@alma.com") (codes "daves-word"))
    ∷ (moment, token_for alice, deactivates 1)
    ∷ (moment, token_for alice, deletes 2)
    ∷ []

answer_all-HasActiveAdmin_example :
    HasActiveAdmin memory_engine
      (answer_all memory_engine memory_crypto an_hour (λ e. some e) a_day office)
answer_all-HasActiveAdmin_example =
    answer_all-HasActiveAdmin memory_engine memory_crypto an_hour (λ e. some e)
      memory_engine-IsEngine a_day office (1, alice, refl, refl, refl)

abbrev boss : User
boss = record bob { role = admin }

abbrev two_admins : Db memory_engine
two_admins = record office { users = (alice ∷ boss ∷ [], omega arith) }

deactivate_user-mutual_example :
    let (r, db') = Auth.deactivate_user memory_engine 2 alice two_admins in
    let (r', db'') = Auth.deactivate_user memory_engine 1 boss db' in
    (r ≡ ok (record boss { is_active = false }))
    × (r' ≡ ok (record alice { is_active = false }))
    × (memory_engine.users.get 1 db''.users ≡ some (record alice { is_active = false }))
    × (memory_engine.users.get 2 db''.users ≡ some (record boss { is_active = false }))
deactivate_user-mutual_example =
    deactivate_user-mutual memory_engine memory_engine-IsEngine two_admins alice boss
      (refl, refl, refl) (refl, refl, refl) (omega arith)
