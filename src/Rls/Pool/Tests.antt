-- ===== src/Rls/Pool/Tests.antt =====
-- A connection that Bob's request leaves behind.
use alma_lead_management_ser.Common.{◌≡◌, ◌++◌, refl, some, inl, inr, List, [], ◌∷◌, All, codes}
use alma_lead_management_ser.Results.{ok}
use alma_lead_management_ser.Models.{attorney, role_value}
use alma_lead_management_ser.Security.Memory.{memory_crypto, memory_crypto-IsCrypto}
use alma_lead_management_ser.Context.{
  Variable, set_current_user_id, set_current_user_role, set_rls_context, get_db,
}
use alma_lead_management_ser.Rls.{Settings, unset}
use alma_lead_management_ser.Rls.Pool.{Event, execute, commit, session, serve}
use alma_lead_management_ser.Dependencies.Fixtures.{
  an_hour, bobs_token, bobs_claims, bobs_token-decodes,
}
use alma_lead_management_ser.Rls.Pool.Lifetime.{signed_in, session-own, serve-leaks}

abbrev of_bob : List Variable
of_bob = set_current_user_id (2 ∷ []) ∷ set_current_user_role (codes "ATTORNEY") ∷ []

abbrev as_bob : Settings
as_bob = record { user_id = some (2 ∷ []); user_role = some (codes "ATTORNEY") }

abbrev emptied_settings : Settings
emptied_settings = record { user_id = some []; user_role = some [] }

-- Bob reads without a commit, then changes a lead; a prospect sends a lead before and after the change.
serve-office :
    serve
      ((of_bob, execute ∷ [])
        ∷ ([], execute ∷ commit ∷ [])
        ∷ (of_bob, execute ∷ execute ∷ commit ∷ execute ∷ [])
        ∷ ([], execute ∷ commit ∷ [])
        ∷ [])
      unset
    ≡ (as_bob ∷ []) ∷ (emptied_settings ∷ []) ∷ (as_bob ∷ as_bob ∷ as_bob ∷ []) ∷ (as_bob ∷ []) ∷ []
unfolding serve session
serve-office = refl

-- Between them Carol's request reads only, and a prospect sends a lead.
abbrev a_day : List (List Variable × List Event)
a_day =
    (set_current_user_id (3 ∷ []) ∷ set_current_user_role (codes "ATTORNEY") ∷ [], execute ∷ [])
    ∷ ([], execute ∷ commit ∷ [])
    ∷ []

serve-leaks_example :
    (before : List (List Settings)) × (next : List Settings) × (serve
        ((of_bob, execute ∷ commit ∷ []) ∷ (a_day ++ (([], execute ∷ []) ∷ [])))
        unset
      ≡ before ++ (next ∷ []))
    × All (λ s. s ≡ signed_in (2 ∷ []) (codes "ATTORNEY")) next
serve-leaks_example =
    serve-leaks (2 ∷ []) (codes "ATTORNEY") (execute ∷ commit ∷ []) a_day (execute ∷ []) unset refl
      (inr refl, (inl refl, tt))

session-own_example :
    (vs : List Variable) × (get_db memory_crypto an_hour 1100
        (set_rls_context memory_crypto an_hour 1100 (codes "Bearer " ++ bobs_token))
      ≡ ok vs)
    × All
        (λ s. s ≡ record { user_id = some (2 ∷ []); user_role = some (role_value attorney) })
        (session vs (execute ∷ commit ∷ execute ∷ []) unset).0
session-own_example =
    session-own memory_crypto memory_crypto-IsCrypto an_hour 1100 bobs_token bobs_claims 2 attorney
      (execute ∷ commit ∷ execute ∷ []) unset bobs_token-decodes refl refl
