-- ===== src/Rls/Pool.antt =====
-- app/db/session.py: the session of a request on a pooled connection. PostgreSQL keeps what `SET`
-- changed when the transaction commits, until the connection is closed, and undoes it when the
-- transaction is rolled back: a setting that was NULL is then the empty text, as the setting stays known
-- to the connection. The pool rolls back what a connection has open when it is given back.
pub mod Lifetime
mod Tests
use alma_lead_management_ser.Common.{Bool, true, false, Option, none, some, List, [], ◌∷◌, Text}
use alma_lead_management_ser.Context.{Variable, set_current_user_id, set_current_user_role}
use alma_lead_management_ser.Rls.{Settings, set_variables}

-- The value of a setting whose `SET` was rolled back.
abbrev pub emptied : Option Text → Option Text
emptied none = some []
emptied (some v) = some v

-- The settings once the `SET` statements of a transaction have been rolled back.
abbrev pub rolled_back : List Variable → Settings → Settings
rolled_back [] s = s
rolled_back (set_current_user_id v ∷ vs) s =
    rolled_back vs (record s { user_id = emptied s.user_id })
rolled_back (set_current_user_role v ∷ vs) s =
    rolled_back vs (record s { user_role = emptied s.user_role })

-- A connection in use: its settings, and those that a rollback brings back.
pub record Connection : Type 0 where
  pub current : Settings
  pub committed : Settings

-- What a handler does with the session that `get_db` yields.
pub data Event : Type 0 where
  execute commit : Event

-- The settings under which each statement runs, and the connection after the last one.
abbrev pub run_events : List Event → Connection → List Settings × Connection
run_events [] c = ([], c)
run_events (execute ∷ es) c = let rest = run_events es c in (c.current ∷ rest.0, rest.1)
run_events (commit ∷ es) c = run_events es (record c { committed = c.current })

-- `async with engine.connect()`, from the settings of the idle connection to those that it goes back
-- to the pool with.
unfoldable pub session : List Variable → List Event → Settings → List Settings × Settings
session vs es idle =
    let run =
      run_events es (record { current = set_variables vs idle; committed = rolled_back vs idle }) in
    (run.0, run.1.committed)

-- Requests that get the same connection one after the other.
unfoldable pub serve : List (List Variable × List Event) → Settings → List (List Settings)
unfolding session
serve [] idle = []
serve ((vs, es) ∷ requests) idle =
    let answer = session vs es idle in answer.0 ∷ serve requests answer.1
