-- ===== src/Leads/Tests.antt =====
-- The lead service at concrete rows, and its theorems at them.
use alma_lead_management_ser.Common.{◌≡◌, refl, none, some, [], ◌∷◌, length, arith}
use alma_lead_management_ser.Results.{ok}
use alma_lead_management_ser.Models.{pending, reached_out}
use alma_lead_management_ser.Database.{NoTies}
use alma_lead_management_ser.Database.Paging.{walk, IsListing}
use alma_lead_management_ser.Engine.Memory.{memory_engine, memory_engine-IsEngine}
use alma_lead_management_ser.Engine.Fixtures.{office, bob, fresh_lead, newest_lead}
use alma_lead_management_ser.Leads.{get_lead, list_leads, in_state, update_lead_state}
use alma_lead_management_ser.Leads.Listing.{list_leads-pages}

list_leads-office :
    list_leads memory_engine office (some pending) 10 0 ≡ (newest_lead ∷ fresh_lead ∷ [], 2)
unfolding list_leads
list_leads-office = refl

update_lead_state-office :
    (update_lead_state memory_engine 900 10 reached_out bob office).0
    ≡ ok (record fresh_lead {
      state = reached_out;
      updated_at = 900;
      reached_out_at = some 900;
      reached_out_by_id = some 2;
    })
unfolding update_lead_state get_lead
update_lead_state-office = refl

office-NoTies : NoTies memory_engine.leads (in_state none) (λ m. m.created_at) office.leads
office-NoTies j k r q h h' t t' e = ground arith

list_leads-pages_example :
    let l = walk (λ o. (list_leads memory_engine office none 2 o).0) 2 2 0 in
    IsListing memory_engine.leads (in_state none) (λ m. m.created_at) office.leads l
    × (length l ≡ (list_leads memory_engine office none 2 0).1)
unfolding list_leads
list_leads-pages_example =
    list_leads-pages memory_engine memory_engine-IsEngine office none 2 2 (omega arith)
      office-NoTies
