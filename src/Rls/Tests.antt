-- ===== src/Rls/Tests.antt =====
-- Bob's and Carol's requests behind the policies: Bob is an attorney, Carol a deactivated one.
use alma_lead_management_ser.Common.{
  All, List, Text, if◌then◌else◌, [], arith, codes, inl, inr, map, none, refl, some, true, ◌++◌,
  ◌↔◌, ◌∷◌, ◌≡◌, ◌≢◌, ◌⊎◌,
}
use alma_lead_management_ser.Results.{ok, err}
use alma_lead_management_ser.Models.{admin, role_eq}
use alma_lead_management_ser.Engine.Memory.{memory_engine, memory_engine-IsEngine}
use alma_lead_management_ser.Engine.Fixtures.{office, alice, bob, carol, called_lead}
use alma_lead_management_ser.Security.Memory.{memory_crypto, memory_crypto-IsCrypto}
use alma_lead_management_ser.Dependencies.{get_current_user, unknown_user, deactivated}
use alma_lead_management_ser.Leads.{reached_out_by, get_lead, list_leads}
use alma_lead_management_ser.Auth.{list_users}
use alma_lead_management_ser.Context.{Variable, set_rls_context, get_db}
use alma_lead_management_ser.Rls.Pool.{execute, commit, session}
use alma_lead_management_ser.Engine.{Engine, Db}
use alma_lead_management_ser.Rls.Views.Transparent.{
  all_users, behind_policies, as_behind, session-transparent, leads-behind_policies,
}
use alma_lead_management_ser.Migrations.Columns.{
  users_policies, leads_policies, audit_logs_policies, uid_006,
}
use alma_lead_management_ser.Rls.{
  Settings, holds, raises, user_readable, row_readable, row_insertable, row_updatable, cast_uid,
  invalid,
}
use alma_lead_management_ser.Rls.Verdicts.{IsAdmin, ActsFor}
use alma_lead_management_ser.Rls.Rows.{IsSignedIn, policies_iff}
use alma_lead_management_ser.Rls.Repair.{
  earlier_users_policies, earlier_leads_policies, earlier_audit_logs_policies,
  row_readable-repaired,
}
use alma_lead_management_ser.Rls.Views.{request_settings, seen, as_seen}
use alma_lead_management_ser.Dependencies.Fixtures.{
  an_hour, alices_token, bobs_token, carols_token, alices_claims, carols_claims,
  alices_token-decodes, carols_token-decodes,
}
use alma_lead_management_ser.Rls.Views.Tokens.{get_current_user-own_token}
use alma_lead_management_ser.Rls.Views.Requests.{
  reached_out_by_iff, get_current_user-seen, get_current_user-hides,
}

-- The connections of an attorney, of another attorney, and of nobody.
abbrev as_bob : Settings
as_bob = record { user_id = some (2 ∷ []); user_role = some (codes "ATTORNEY") }

abbrev as_alice : Settings
as_alice = record { user_id = some (1 ∷ []); user_role = some (codes "ADMIN") }

as_bob-valid : cast_uid memory_crypto uid_006 as_bob ≢ invalid
as_bob-valid = λ h. ground arith

leads_readable-bob :
    row_readable memory_crypto users_policies as_bob (alice ∷ bob ∷ []) leads_policies ≡ holds
leads_readable-bob =
    ((policies_iff memory_crypto as_bob (alice ∷ bob ∷ []) as_bob-valid bob).1).1
      (bob, inr (inl refl), refl, refl)

policies_iff_example :
    ((user_readable memory_crypto users_policies as_bob alice ≡ holds)
      ↔ (IsAdmin as_bob ⊎ (ActsFor memory_crypto as_bob 1 × (true ≡ true))))
    × ((row_readable memory_crypto users_policies as_bob (alice ∷ bob ∷ []) leads_policies ≡ holds)
        ↔ IsSignedIn memory_crypto as_bob (alice ∷ bob ∷ []) as_bob-valid)
    × ((row_updatable memory_crypto users_policies as_bob (alice ∷ bob ∷ []) leads_policies ≡ holds)
        ↔ IsSignedIn memory_crypto as_bob (alice ∷ bob ∷ []) as_bob-valid)
    × ((row_readable memory_crypto users_policies as_bob (alice ∷ bob ∷ []) audit_logs_policies
          ≡ holds)
        ↔ IsAdmin as_bob)
    × (row_updatable memory_crypto users_policies as_bob (alice ∷ bob ∷ []) audit_logs_policies
        ≢ holds)
    × (row_insertable memory_crypto users_policies as_bob (alice ∷ bob ∷ []) leads_policies ≡ holds)
    × (row_insertable memory_crypto users_policies as_bob (alice ∷ bob ∷ []) audit_logs_policies
        ≡ holds)
policies_iff_example = policies_iff memory_crypto as_bob (alice ∷ bob ∷ []) as_bob-valid alice

-- A connection that was told a user id which is no UUID.
abbrev malformed : Settings
malformed = record { user_id = some (codes "nobody"); user_role = none }

row_readable-repaired_example :
    ((user_readable memory_crypto earlier_users_policies malformed alice ≡ raises)
      × (row_readable memory_crypto earlier_users_policies malformed
            (alice ∷ bob ∷ [])
            earlier_leads_policies
          ≡ raises)
      × (row_updatable memory_crypto earlier_users_policies malformed
            (alice ∷ bob ∷ [])
            earlier_leads_policies
          ≡ raises)
      × (row_readable memory_crypto earlier_users_policies malformed
            (alice ∷ bob ∷ [])
            earlier_audit_logs_policies
          ≡ raises))
    × ((user_readable memory_crypto users_policies as_bob alice ≢ raises)
        × (row_readable memory_crypto users_policies as_bob (alice ∷ bob ∷ []) leads_policies
            ≢ raises)
        × (row_readable memory_crypto users_policies as_bob (alice ∷ bob ∷ []) audit_logs_policies
            ≢ raises))
row_readable-repaired_example =
    row_readable-repaired memory_crypto malformed as_bob alice (bob ∷ []) as_bob-valid

-- Alice sees that Bob reached out to a lead.
reached_out_by_iff_example :
    (reached_out_by
        (seen memory_crypto as_alice memory_engine)
        called_lead
        (as_seen memory_crypto as_alice memory_engine office)
      ≡ some bob)
    ↔ ((reached_out_by memory_engine called_lead office ≡ some bob)
        × (IsAdmin as_alice ⊎ ((alice.id ≡ bob.id) × (true ≡ true))))
reached_out_by_iff_example =
    reached_out_by_iff memory_crypto as_alice 1 refl memory_engine office called_lead bob

abbrev of_token : Text → Settings
of_token token = request_settings memory_crypto an_hour 1100 (codes "Bearer " ++ token)

get_current_user-seen_example :
    ((get_current_user
        (seen memory_crypto (of_token bobs_token) memory_engine)
        memory_crypto
        an_hour
        1100
        bobs_token
        (as_seen memory_crypto (of_token bobs_token) memory_engine office)).0
      ≡ ok bob)
    ↔ ((get_current_user memory_engine memory_crypto an_hour 1100 bobs_token office).0 ≡ ok bob)
get_current_user-seen_example =
    get_current_user-seen memory_engine memory_engine-IsEngine memory_crypto memory_crypto-IsCrypto
      an_hour 1100 bobs_token office bob

get_current_user-hides_example :
    ((get_current_user
        (seen memory_crypto (of_token carols_token) memory_engine)
        memory_crypto
        an_hour
        1100
        carols_token
        (as_seen memory_crypto (of_token carols_token) memory_engine office)).0
      ≡ err unknown_user)
    × ((get_current_user memory_engine memory_crypto an_hour 1100 carols_token office).0
        ≡ err deactivated)
get_current_user-hides_example =
    get_current_user-hides memory_engine memory_engine-IsEngine memory_crypto memory_crypto-IsCrypto
      an_hour 1100 carols_token office carol carols_claims carols_token-decodes refl refl refl refl

-- Carol has been deactivated since she got her token.
get_current_user-own_token_example :
    (get_current_user
      (seen memory_crypto (of_token carols_token) memory_engine)
      memory_crypto
      an_hour
      1100
      carols_token
      (as_seen memory_crypto (of_token carols_token) memory_engine office)).0
    ≡ (if carol.is_active
        then ok carol
        else if role_eq carol.role admin
        then err deactivated
        else err unknown_user)
get_current_user-own_token_example =
    get_current_user-own_token memory_engine memory_engine-IsEngine memory_crypto
      memory_crypto-IsCrypto an_hour 1000 1100 carol carol office (omega arith) refl

abbrev names_of : (E : Engine) → Db E → List Text
names_of E db = map (λ u. u.email) (list_users E db)

-- After Bob's request the connection still has his settings.
session-transparent_example :
    let users = all_users memory_engine office in
    (vs : List Variable) × (get_db memory_crypto an_hour 1100
        (set_rls_context memory_crypto an_hour 1100 (codes "Bearer " ++ alices_token))
      ≡ ok vs)
    × All
        (λ s.
          names_of
            (behind_policies memory_crypto s users memory_engine)
            (as_behind memory_crypto s users memory_engine office)
          ≡ names_of memory_engine office)
        (session vs (execute ∷ commit ∷ execute ∷ []) as_bob).0
session-transparent_example =
    session-transparent memory_engine memory_engine-IsEngine memory_crypto memory_crypto-IsCrypto
      an_hour 1100 alices_token alices_claims alice office (execute ∷ commit ∷ execute ∷ []) as_bob
      names_of alices_token-decodes refl refl refl refl

leads-behind_policies_example :
    let F = behind_policies memory_crypto as_bob (all_users memory_engine office) memory_engine in
    let behind =
      as_behind memory_crypto as_bob (all_users memory_engine office) memory_engine office in
    ((get_lead F 11 behind).0 ≡ (get_lead memory_engine 11 office).0)
    × (list_leads F behind none 2 1 ≡ list_leads memory_engine office none 2 1)
leads-behind_policies_example =
    leads-behind_policies memory_engine memory_engine-IsEngine memory_crypto as_bob office bob refl
      refl refl none 11 2 1
