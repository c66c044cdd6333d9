-- ===== src/Context/Tests.antt =====
-- Bob's token in a header.
use alma_lead_management_ser.Common.{◌≡◌, ◌++◌, refl, [], ◌∷◌, codes}
use alma_lead_management_ser.Results.{ok}
use alma_lead_management_ser.Engine.Memory.{memory_engine}
use alma_lead_management_ser.Engine.Fixtures.{office, bob}
use alma_lead_management_ser.Security.{create_access_token, decode_access_token}
use alma_lead_management_ser.Security.Memory.{memory_crypto}
use alma_lead_management_ser.Dependencies.{get_current_user}
use alma_lead_management_ser.Dependencies.Fixtures.{an_hour, bobs_token}
use alma_lead_management_ser.Context.{
  set_rls_context, get_db, set_current_user_id, set_current_user_role,
}

current-bob :
    (get_current_user memory_engine memory_crypto an_hour 1100 bobs_token office).0 ≡ ok bob
unfolding get_current_user create_access_token decode_access_token
current-bob = refl

get_db-bob :
    get_db memory_crypto an_hour 1100
      (set_rls_context memory_crypto an_hour 1100 (codes "Bearer " ++ bobs_token))
    ≡ ok (set_current_user_id (2 ∷ []) ∷ set_current_user_role (codes "ATTORNEY") ∷ [])
unfolding get_db set_rls_context create_access_token decode_access_token
get_db-bob = refl
