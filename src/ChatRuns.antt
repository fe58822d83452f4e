-- ===== src/ChatRuns.antt =====
-- The runs of the chat and their cancellation: core/chat_runs.py of src/tempa. An `asyncio.Event` is
-- an object that the registry and the run share, so that the state has the events too: an event is
-- the number of its creation.
mod Examples
pub mod Cancelling
use tempa.Base.{
  ℕ, suc, String, Bool, true, false, Option, none, some, List, [], ◌∷◌, any, eqb, if◌then◌else◌,
}
use tempa.Base.Dict
use tempa.Base.Dict.{Dict}

-- `_active_runs`, the events that are set, and the number of events created.
pub record Runs : Type 0 where
  pub active : Dict ℕ
  pub set_events : List ℕ
  pub created : ℕ

unfoldable pub register_run : String → Runs → ℕ × Runs
register_run run_id s =
    (s.created, record s { active = Dict.put s.active run_id s.created; created = suc s.created })

-- `cancel.set()`
abbrev pub set_event : Option ℕ → Runs → Bool × Runs
set_event none s = (false, s)
set_event (some event) s = (true, record s { set_events = event ∷ s.set_events })

unfoldable pub cancel_run : String → Runs → Bool × Runs
cancel_run run_id s = set_event (Dict.get s.active run_id) s

unfoldable pub unregister_run : String → Runs → Runs
unregister_run run_id s = record s { active = Dict.pop s.active run_id }

unfoldable pub is_cancelled : Option ℕ → Runs → Bool
is_cancelled none s = false
is_cancelled (some event) s = any (eqb event) s.set_events
