-- ===== src/Dependencies/Tests.antt =====
-- Logins and tokens in the office of the fixtures.
use alma_lead_management_ser.Common.{◌≡◌, refl, inl, true, some, codes}
use alma_lead_management_ser.Results.{ok, err}
use alma_lead_management_ser.Engine.Memory.{memory_engine, memory_engine-IsEngine}
use alma_lead_management_ser.Engine.Fixtures.{office, bob, carol}
use alma_lead_management_ser.Security.{
  Payload, decode_access_token, hash_password, create_access_token,
}
use alma_lead_management_ser.Security.Memory.{memory_crypto, memory_crypto-IsCrypto}
use alma_lead_management_ser.Auth.{authenticate_user, invalid_credentials}
use alma_lead_management_ser.Auth.Fixtures.{office-UniqueEmails, office_lacks_dave}
use alma_lead_management_ser.Dependencies.{get_current_user, subject_id}
use alma_lead_management_ser.Dependencies.Access.{get_current_user-IsGenuine}
use alma_lead_management_ser.Dependencies.Fixtures.{an_hour, bobs_token}
use alma_lead_management_ser.Dependencies.Login.{HasPassword, authenticate_user-refuses}

current-bob :
    (get_current_user memory_engine memory_crypto an_hour 1100 bobs_token office).0 ≡ ok bob
unfolding get_current_user create_access_token decode_access_token
current-bob = refl

bobs_password : HasPassword memory_crypto (codes "bobs-word") bob
unfolding hash_password
bobs_password = (codes "s:", refl)

carols_password : HasPassword memory_crypto (codes "carols-word") carol
unfolding hash_password
carols_password = (codes "s:", refl)

authenticate_user-refuses_example :
    authenticate_user memory_engine memory_crypto an_hour 1000
      (codes "dave@alma.com")
      (codes "x")
      office
    ≡ (err invalid_credentials, office)
authenticate_user-refuses_example =
    authenticate_user-refuses memory_engine memory_engine-IsEngine memory_crypto
      memory_crypto-IsCrypto an_hour office office-UniqueEmails 1000 (codes "dave@alma.com")
      (codes "x") (inl office_lacks_dave)

get_current_user-IsGenuine_example :
    (memory_engine.users.get 2 office.users ≡ some bob)
    × (bob.is_active ≡ true)
    × ((p : Payload) × (decode_access_token memory_crypto an_hour 1100 bobs_token ≡ ok p)
        × (subject_id memory_crypto p ≡ ok 2))
get_current_user-IsGenuine_example =
    get_current_user-IsGenuine memory_engine memory_crypto an_hour 1100 bobs_token office
      memory_engine-IsEngine bob current-bob
