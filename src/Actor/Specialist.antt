-- ===== src/Actor/Specialist.antt =====
-- `_run_specialist_with_retry` of agents/graph.py. The events that it publishes are left out.
use Prim.Native.String.{◌++◌}
use tempa.Base.{ℕ, zero, suc, String, Option, none, some, ◌==◌, if◌then◌else◌}
use tempa.Base.Text.{includes}
use tempa.Tasks.{Status, in_progress, completed, failed, update_subtask}
use tempa.Actor.State.{Context, Attempt, returned, raised, stopped, Outside, State}

abbrev max_specialist_retries : ℕ
max_specialist_retries = 2

-- The loop over the attempts: `run` makes another, and `left` counts those that remain. `none` is
-- the CancelledError, which `except Exception` does not catch.
unfoldable pub attempts :
    {W : Type 0} (left : ℕ)
    → (run : W → Attempt × W) → (agent : String) → Attempt × W
    → Option String × W
attempts left run agent (returned result, w) = (some result, w)
attempts left run agent (stopped, w) = (none, w)
attempts zero run agent (raised last_error, w) =
    (some ("Agent " ++ agent ++ " failed after retries: " ++ last_error), w)
attempts (suc left) run agent (raised last_error, w) = attempts left run agent (run w)

module _ {W : Type 0} (o : Outside W) where
  -- `if task_id: update_subtask(task_id, agent, status)`
  unfoldable pub mark_subtask : (task_id agent : String) → Status → State W → State W
  mark_subtask task_id agent status s =
      if task_id == ""
      then s
      else record s { tasks = update_subtask task_id agent status (o.clock s.world) s.tasks }

  -- The status of the subtask after a result; a cancelled one stays in progress.
  unfoldable pub settle_subtask : (task_id agent : String) → Option String → State W → State W
  settle_subtask task_id agent none s = s
  settle_subtask task_id agent (some result) s =
      mark_subtask task_id agent
        (if includes result "failed after retries" then failed else completed) s

  unfoldable pub run_known :
      (agent task user_message task_id : String)
      → Context
      → Option ((task user_message : String) → Context → W → Attempt × W)
      → State W
      → Option String × State W
  run_known agent task user_message task_id ctx none s = (some ("Unknown agent: " ++ agent), s)
  run_known agent task user_message task_id ctx (some runner) s =
      let s' = mark_subtask task_id agent in_progress s in
      let run = runner task user_message ctx in
      let (result, w) = attempts max_specialist_retries run agent (run s'.world) in
      (result, settle_subtask task_id agent result (record s' { world = w }))

  unfoldable pub run_specialist_with_retry :
      (agent task user_message task_id : String) → Context → State W → Option String × State W
  unfolding run_known
  run_specialist_with_retry agent task user_message task_id ctx s =
      if o.is_cancelled s.world
      then (none, s)
      else run_known agent task user_message task_id ctx (o.runner agent) s
