-- ===== src/Effects/Tests.antt =====
-- A day in the office of the fixtures, and the theorems at it.
use alma_lead_management_ser.Common.{ℕ, List, [], ◌∷◌, ◌≡◌, ◌⊎◌, refl, some, none, codes, arith}
use alma_lead_management_ser.Models.{Lead, AuditLog, attorney, pending, reached_out}
use alma_lead_management_ser.Engine.Memory.{memory_engine, memory_engine-IsEngine}
use alma_lead_management_ser.Engine.Fixtures.{office, alice, bob, called_lead, change_entry}
use alma_lead_management_ser.Security.Memory.{memory_crypto}
use alma_lead_management_ser.Effects.Leads.{Follows, AllTracked}
use alma_lead_management_ser.Effects.Trail.{SameButUser}
use alma_lead_management_ser.Effects.Running.{
  Call, registers, deletes, moves, creates, run_all, Gone, run_all-Follows, run_all-AllTracked,
  run_all-SameEntry,
}

-- Bob marks a lead as REACHED_OUT and tries to take back another one, a new lead comes in, Alice
-- deletes Bob's account, and somebody registers with Carol's address.
abbrev day : List Call
day =
    moves 900 10 reached_out bob
    ∷ moves 910 11 pending bob
    ∷ creates 13 920 (codes "Ann") (codes "Lee") (codes "ann@x.org") (codes "up/u1.pdf")
    ∷ deletes 2 alice
    ∷ registers 4 930 (codes "s:") (codes "carol@alma.com") (codes "password") attorney
    ∷ []

office-AllTracked : AllTracked memory_engine office
office-AllTracked k l h = ground arith

run_all-Follows_example :
    (m : Lead) × (memory_engine.leads.get 11 (run_all memory_engine memory_crypto day office).leads
      ≡ some m)
    × Follows called_lead m
run_all-Follows_example =
    run_all-Follows memory_engine memory_crypto memory_engine-IsEngine day office 11 called_lead
      refl

run_all-AllTracked_example :
    AllTracked memory_engine (run_all memory_engine memory_crypto day office)
run_all-AllTracked_example =
    run_all-AllTracked memory_engine memory_crypto memory_engine-IsEngine day office
      office-AllTracked

run_all-SameEntry_example :
    (b : AuditLog) × (memory_engine.audit_logs.get 21
        (run_all memory_engine memory_crypto day office).audit_logs
      ≡ some b)
    × SameButUser change_entry b
    × ((b.user_id ≡ change_entry.user_id)
        ⊎ ((b.user_id ≡ none)
            × ((j : ℕ) × (change_entry.user_id ≡ some j)
                × Gone memory_engine memory_crypto memory_engine-IsEngine j day office)))
run_all-SameEntry_example =
    run_all-SameEntry memory_engine memory_crypto memory_engine-IsEngine day office 21 change_entry
      refl
