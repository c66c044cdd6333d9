-- ===== src/Leads/Listing.antt =====
-- What the listing of leads returns.
use alma_lead_management_ser.Common.{
  ℕ, ◌*◌, ◌≤◌, ◌≡◌, ◌↔◌, Option, none, some, true, length, All, arith,
}
use alma_lead_management_ser.Models.{Lead, LeadState, state_eq_iff}
use alma_lead_management_ser.Database.{NoTies}
use alma_lead_management_ser.Database.Members.{All-imp}
use alma_lead_management_ser.Database.Paging.{walk, IsListing, walk-IsListing, page_bounds}
use alma_lead_management_ser.Engine.{Engine, IsEngine, Db}
use alma_lead_management_ser.Leads.{in_state, list_leads}

-- The filter that was asked for.
abbrev pub Wanted : Option LeadState → Lead → Type 0
Wanted none l = Unit
Wanted (some s) l = l.state ≡ s

pub in_state_iff : (s : Option LeadState) (l : Lead) → (in_state s l ≡ true) ↔ Wanted s l
in_state_iff none l = ground arith
in_state_iff (some s) l = state_eq_iff l.state s

module _ (E : Engine) (laws : IsEngine E) (db : Db E) where
  -- Where no two leads in the wanted state were created at the same time, a client that asks
  -- for page after page until it has `total` leads has seen every one of them, each once, from the
  -- newest to the oldest.
  pub list_leads-pages :
      (state : Option LeadState) (limit rounds : ℕ)
      → (list_leads E db state limit 0).1 ≤ rounds * limit
      → NoTies E.leads (in_state state) (λ m. m.created_at) db.leads
      → let l = walk (λ o. (list_leads E db state limit o).0) rounds limit 0 in
        IsListing E.leads (in_state state) (λ m. m.created_at) db.leads l
        × (length l ≡ (list_leads E db state limit 0).1)
  unfolding list_leads
  list_leads-pages state limit rounds h total =
      walk-IsListing E.leads laws.leads (in_state state) (λ m. m.created_at) db.leads limit rounds h
        total

  -- One page holds at most `limit` leads, all of them stored and in the wanted state.
  pub list_leads_bounds :
      (state : Option LeadState) (limit offset : ℕ)
      → let page = (list_leads E db state limit offset).0 in
        (length page ≤ limit)
        × All (λ l. (E.leads.get l.id db.leads ≡ some l) × Wanted state l) page
  unfolding list_leads
  list_leads_bounds state limit offset =
      let (fits, passed) =
        page_bounds E.leads laws.leads (in_state state) (λ m. m.created_at) db.leads limit offset in
      (fits, All-imp (λ l (g, t). (g, (in_state_iff state l).0 t)) _ passed)
