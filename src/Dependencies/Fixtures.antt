-- ===== src/Dependencies/Fixtures.antt =====
-- Tokens for the tests, handed out at 1000 to the accounts of the office.
use alma_lead_management_ser.Common.{◌≡◌, refl, some, [], ◌∷◌, Text, codes}
use alma_lead_management_ser.Results.{ok}
use alma_lead_management_ser.Engine.Fixtures.{alice, bob, carol}
use alma_lead_management_ser.Security.{
  TokenSettings, Payload, create_access_token, decode_access_token,
}
use alma_lead_management_ser.Security.Memory.{memory_crypto}
use alma_lead_management_ser.Dependencies.Login.{token_of}

abbrev pub an_hour : TokenSettings
an_hour = record { secret_key = codes "k"; access_token_expire_minutes = 60 }

abbrev pub alices_token : Text
alices_token = token_of memory_crypto an_hour 1000 alice

abbrev pub bobs_token : Text
bobs_token = token_of memory_crypto an_hour 1000 bob

abbrev pub carols_token : Text
carols_token = token_of memory_crypto an_hour 1000 carol

abbrev pub alices_claims : Payload
alices_claims = record { sub = some (1 ∷ []); role = some (codes "ADMIN"); exp = 4600 }

abbrev pub bobs_claims : Payload
bobs_claims = record { sub = some (2 ∷ []); role = some (codes "ATTORNEY"); exp = 4600 }

abbrev pub carols_claims : Payload
carols_claims = record { sub = some (3 ∷ []); role = some (codes "ATTORNEY"); exp = 4600 }

pub alices_token-decodes :
    decode_access_token memory_crypto an_hour 1100 alices_token ≡ ok alices_claims
unfolding create_access_token decode_access_token
alices_token-decodes = refl

pub bobs_token-decodes : decode_access_token memory_crypto an_hour 1100 bobs_token ≡ ok bobs_claims
unfolding create_access_token decode_access_token
bobs_token-decodes = refl

pub carols_token-decodes :
    decode_access_token memory_crypto an_hour 1100 carols_token ≡ ok carols_claims
unfolding create_access_token decode_access_token
carols_token-decodes = refl
