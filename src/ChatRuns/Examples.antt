-- ===== src/ChatRuns/Examples.antt =====
-- A run that is registered a second time.
use tempa.Base.{true, some, [], ◌∷◌, ◌≡◌, ◌||◌, eqb}
use tempa.ChatRuns.{Runs, register_run, cancel_run, is_cancelled}
use tempa.ChatRuns.Cancelling.{cancel_run-register_run}

abbrev runs : Runs
runs = record { active = ("r", 0) ∷ []; set_events = []; created = 1 }

cancel_run-register_run_example :
    ((cancel_run "r" (register_run "r" runs).1).0 ≡ true)
    × (is_cancelled (some 0) (cancel_run "r" (register_run "r" runs).1).1
        ≡ (eqb 0 (register_run "r" runs).0 || is_cancelled (some 0) runs))
cancel_run-register_run_example = cancel_run-register_run "r" runs 0
