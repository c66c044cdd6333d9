-- ===== src/Schemas/Responses/Tests.antt =====
-- Bodies at concrete values.
use alma_lead_management_ser.Common.{◌≡◌, refl, none, [], ◌∷◌, codes}
use alma_lead_management_ser.Engine.Memory.{memory_engine}
use alma_lead_management_ser.Engine.Fixtures.{office}
use alma_lead_management_ser.Leads.{list_leads}
use alma_lead_management_ser.Audit.Log.{Surroundings}
use alma_lead_management_ser.Schemas.Responses.{parse_state_update, lead_list_response}

parse_state_update-lower : parse_state_update (codes "pending") ≡ none
unfolding parse_state_update
parse_state_update-lower = refl

-- The second lead of the office is one that Bob reached out to.
lead_list_response-office :
    (lead_list_response memory_engine
      (λ k. k ∷ [])
      office
      (list_leads memory_engine office none 1 1)
      1
      1).total
    ≡ 3
unfolding lead_list_response list_leads
lead_list_response-office = refl

abbrev calm : Surroundings
calm = record {
  fresh_id = 30;
  now = 800;
  monotonic = 40;
  wall = 1040;
  fault = none;
  violation = record { type_name = codes "IntegrityError"; message = codes "FOREIGN KEY" };
}
