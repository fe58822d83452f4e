-- ===== src/ChatRuns/Cancelling.antt =====
-- Whom a cancellation reaches.
use tempa.Base.{ℕ, String, true, false, ◌||◌, some, ◌≡◌, eqb}
use tempa.Base.Dict.{get-put_self, get-pop}
use tempa.Base.{eq_refl}
use tempa.ChatRuns.{Runs, register_run, cancel_run, unregister_run, is_cancelled}

-- Cancelling a run that was registered last under its identifier sets the event that this
-- registration returned, and no other: an earlier run of that identifier goes on.
pub cancel_run-register_run :
    (run_id : String) (s : Runs) (event : ℕ)
    → ((cancel_run run_id (register_run run_id s).1).0 ≡ true)
      × (is_cancelled (some event) (cancel_run run_id (register_run run_id s).1).1
          ≡ (eqb event (register_run run_id s).0 || is_cancelled (some event) s))
unfolding cancel_run register_run is_cancelled
cancel_run-register_run run_id s event = (rw get-put_self, rw get-put_self)

-- A run that was unregistered can be cancelled no more: the call answers false and sets nothing.
pub cancel_run-unregister_run :
    (run_id : String) (s : Runs)
    → cancel_run run_id (unregister_run run_id s) ≡ (false, unregister_run run_id s)
unfolding cancel_run unregister_run
cancel_run-unregister_run run_id s = rw (get-pop, eq_refl run_id)
