-- ===== src/Leads/Racing/Tests.antt =====
-- Alice and Bob mark one lead at once, and Bob sets back what he has not seen being marked.
use alma_lead_management_ser.Common.{◌≡◌, refl, some, arith}
use alma_lead_management_ser.Results.{ok}
use alma_lead_management_ser.Models.{pending, reached_out}
use alma_lead_management_ser.Engine.Memory.{memory_engine, memory_engine-IsEngine}
use alma_lead_management_ser.Engine.Fixtures.{office, alice, bob, fresh_lead, called_lead}
use alma_lead_management_ser.Leads.{get_lead, with_state}
use alma_lead_management_ser.Leads.Racing.{Request, race, in_turn, read_for_update, send_update}
use alma_lead_management_ser.Leads.Racing.Mixing.{marks, race-mixes}

abbrev by_alice : Request
by_alice = record { now = 900; new_state = reached_out; user = alice }

abbrev by_bob : Request
by_bob = record { now = 901; new_state = pending; user = bob }

-- Bob is told PENDING, and the lead stays marked.
race-stale : (race memory_engine 10 by_alice by_bob office).1 ≡ ok fresh_lead
unfolding race read_for_update send_update get_lead
race-stale = refl

-- Bob has marked the lead before; Alice marks it at 900 and Bob again at 901.
race-mixes_example :
    let raced_db = (race memory_engine 11 (marks 900 alice) (marks 901 bob) office).2 in
    let one = (in_turn memory_engine 11 (marks 900 alice) (marks 901 bob) office).2 in
    let other = (in_turn memory_engine 11 (marks 901 bob) (marks 900 alice) office).2 in
    (memory_engine.leads.get 11 raced_db.leads
      ≡ some (record (with_state 901 reached_out bob called_lead) { reached_out_by_id = some 1 }))
    × (memory_engine.leads.get 11 one.leads ≡ some (with_state 901 reached_out bob called_lead))
    × (memory_engine.leads.get 11 other.leads ≡ some (with_state 900 reached_out alice called_lead))
race-mixes_example =
    race-mixes memory_engine memory_engine-IsEngine called_lead office 900 901 alice bob alice bob
      refl ((λ e. absurd (ground arith)), (λ e h. ground arith)) refl refl refl refl
