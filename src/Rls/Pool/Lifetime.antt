-- ===== src/Rls/Pool/Lifetime.antt =====
-- Whose settings the statements of a request run under, on a connection with a past.
use alma_lead_management_ser.Common.{
  ℕ, ◌≡◌, refl, ap, ◌⊎◌, inl, inr, subst, ◌∙◌, Bool, true, false, some, List, [], ◌∷◌, ◌++◌, All,
  if◌then◌else◌, Text, codes,
}
use alma_lead_management_ser.Results.{ok}
use alma_lead_management_ser.Models.{UserRole, admin, attorney, role_value}
use alma_lead_management_ser.Security.{
  Crypto, IsCrypto, TokenSettings, Payload, decode_access_token,
}
use alma_lead_management_ser.Dependencies.{subject_id}
use alma_lead_management_ser.Context.{
  Variable, set_current_user_id, set_current_user_role, role_variables, set_rls_context, get_db,
}
use alma_lead_management_ser.Context.Agreement.{get_db-subject}
use alma_lead_management_ser.Rls.{Settings, set_variables}
use alma_lead_management_ser.Rls.Pool.{
  Connection, Event, execute, commit, run_events, session, serve, rolled_back,
}

abbrev pub commits : List Event → Bool
commits [] = false
commits (execute ∷ es) = commits es
commits (commit ∷ es) = true

-- A commit changes no setting.
run_events-All : (es : List Event) (c : Connection) → All (λ s. s ≡ c.current) (run_events es c).0
run_events-All [] c = tt
run_events-All (execute ∷ es) c = (refl, run_events-All es c)
run_events-All (commit ∷ es) c = run_events-All es (record c { committed = c.current })

if_same : (b : Bool) (s : Settings) → (if b then s else s) ≡ s
if_same true s = refl
if_same false s = refl

run_events_committed :
    (es : List Event) (c : Connection)
    → (run_events es c).1.committed ≡ (if commits es then c.current else c.committed)
run_events_committed [] c = refl
run_events_committed (execute ∷ es) c = run_events_committed es c
run_events_committed (commit ∷ es) c =
    run_events_committed es (record c { committed = c.current }) ∙ if_same (commits es) c.current

session_left :
    (vs : List Variable) (es : List Event) (idle : Settings)
    → (session vs es idle).1 ≡ (if commits es then set_variables vs idle else rolled_back vs idle)
unfolding session
session_left vs es idle =
    run_events_committed es
      (record { current = set_variables vs idle; committed = rolled_back vs idle })

session-All :
    (vs : List Variable) (es : List Event) (idle : Settings)
    → All (λ s. s ≡ set_variables vs idle) (session vs es idle).0
unfolding session
session-All vs es idle =
    run_events-All es (record { current = set_variables vs idle; committed = rolled_back vs idle })

-- The settings of a signed-in account.
abbrev pub signed_in : (user_id role : Text) → Settings
signed_in user_id role = record { user_id = some user_id; user_role = some role }

-- A request that leaves the settings of a connection: it has none of its own, or it commits nothing.
abbrev pub Quiet : List Variable × List Event → Type 0
Quiet (vs, es) = (vs ≡ []) ⊎ (commits es ≡ false)

-- Settings that were made survive a rollback.
rolled_back-signed_in :
    (vs : List Variable) (user_id role : Text)
    → rolled_back vs (signed_in user_id role) ≡ signed_in user_id role
rolled_back-signed_in [] user_id role = refl
rolled_back-signed_in (set_current_user_id v ∷ vs) user_id role =
    rolled_back-signed_in vs user_id role
rolled_back-signed_in (set_current_user_role v ∷ vs) user_id role =
    rolled_back-signed_in vs user_id role

session-Quiet :
    (vs : List Variable) (es : List Event) (user_id role : Text)
    → Quiet (vs, es)
    → (session vs es (signed_in user_id role)).1 ≡ signed_in user_id role
session-Quiet vs es user_id role (inl none_set) =
    session_left vs es (signed_in user_id role)
    ∙ ap
        (λ ws.
          if commits es
          then set_variables ws (signed_in user_id role)
          else rolled_back ws (signed_in user_id role))
        none_set
    ∙ if_same (commits es) _
session-Quiet vs es user_id role (inr uncommitted) =
    session_left vs es (signed_in user_id role)
    ∙ rw (uncommitted) (rolled_back-signed_in vs user_id role)

serve-signed_in :
    (between : List (List Variable × List Event)) (es : List Event) (user_id role : Text)
    → All Quiet between
    → (before : List (List Settings)) × (next : List Settings) × (serve
          (between ++ (([], es) ∷ []))
          (signed_in user_id role)
        ≡ before ++ (next ∷ []))
      × All (λ s. s ≡ signed_in user_id role) next
unfolding serve
serve-signed_in [] es user_id role quiet = (
  [],
  (session [] es (signed_in user_id role)).0,
  refl,
  session-All [] es (signed_in user_id role),
)
serve-signed_in ((vs, es') ∷ between) es user_id role (quiet, quiets) =
    let (before, next, served, settings) = serve-signed_in between es user_id role quiets in
    let first = (session vs es' (signed_in user_id role)).0 in
    (
      first ∷ before,
      next,
      ap (λ s. first ∷ serve (between ++ (([], es) ∷ [])) s)
            (session-Quiet vs es' user_id role quiet)
          ∙ ap (λ (r : List (List Settings)). first ∷ r) served,
      settings,
    )

-- A request with a token sets the user and the role and commits, on a connection with any past. However
-- many requests then use the connection that have no token or commit nothing, every statement of a
-- request without a token after them still runs as the user and in the role of that first request.
pub serve-leaks :
    (user_id role : Text) (es : List Event) (between : List (List Variable × List Event))
    → (last : List Event) (idle : Settings) → commits es ≡ true
    → All Quiet between
    → let signs_in = set_current_user_id user_id ∷ set_current_user_role role ∷ [] in
      (before : List (List Settings)) × (next : List Settings) × (serve
          ((signs_in, es) ∷ (between ++ (([], last) ∷ [])))
          idle
        ≡ before ++ (next ∷ []))
      × All (λ s. s ≡ signed_in user_id role) next
unfolding serve
serve-leaks user_id role es between last idle committed quiet =
    let signs_in = set_current_user_id user_id ∷ set_current_user_role role ∷ [] in
    let (before, next, served, settings) = serve-signed_in between last user_id role quiet in
    let first = (session signs_in es idle).0 in
    (
      first ∷ before,
      next,
      ap (λ s. first ∷ serve (between ++ (([], last) ∷ [])) s)
            (session_left signs_in es idle ∙ rw (committed) refl)
          ∙ ap (λ (r : List (List Settings)). first ∷ r) served,
      settings,
    )

set_variables-own :
    (C : Crypto) (k : ℕ) (role : UserRole) (idle : Settings)
    → set_variables
        (set_current_user_id (C.uuid_str k) ∷ role_variables (some (role_value role)))
        idle
      ≡ record { user_id = some (C.uuid_str k); user_role = some (role_value role) }
set_variables-own C k admin idle = refl
set_variables-own C k attorney idle = refl

-- Every statement of a request with a valid token, those after a commit included, runs under the key
-- and the role of the token, whatever the connection was used for before.
pub session-own :
    (C : Crypto)
    → IsCrypto C
    → (settings : TokenSettings) (now : ℕ) (token : Text) (p : Payload) (k : ℕ) (role : UserRole)
    → (es : List Event) (idle : Settings) → decode_access_token C settings now token ≡ ok p
    → subject_id C p ≡ ok k
    → p.role ≡ some (role_value role)
    → (vs : List Variable) × (get_db C settings now
          (set_rls_context C settings now (codes "Bearer " ++ token))
        ≡ ok vs)
      × All
          (λ s. s ≡ record { user_id = some (C.uuid_str k); user_role = some (role_value role) })
          (session vs es idle).0
unfolding session
session-own C crypto settings now token p k role es idle decoded subject claim =
    let vs = set_current_user_id (C.uuid_str k) ∷ role_variables (some (role_value role)) in
    (
      vs,
      get_db-subject C crypto settings now token p k decoded subject
          ∙ ap (λ r. ok (set_current_user_id (C.uuid_str k) ∷ role_variables r)) claim,
      subst (λ s. All (λ t. t ≡ s) (session vs es idle).0) (set_variables-own C k role idle)
          (session-All vs es idle),
    )
