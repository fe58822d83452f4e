-- ===== src/Waves.antt =====
-- The execution waves of the coordinator's subtasks: `compute_execution_waves` of agents/graph.py of
-- src/tempa.
mod Examples
pub mod Order
use Prim.Native.String.{◌++◌}
use tempa.Base.{
  ℕ, zero, suc, String, Bool, true, false, Option, none, some, List, [], ◌∷◌, if◌then◌else◌, ◌||◌,
  contains, all, length, select, not,
}
use tempa.Base.Value.{str_ℕ}

-- A subtask: what the function reads of it, with the rest in `details`. A missing `depends_on` is
-- the empty list, as for the code.
pub record Task : Type 0 where
  pub task_id : Option String
  pub agent : Option String
  pub depends_on : List String
  pub details : String

abbrev or_default : ℕ → Option String → Option String
or_default index none = some ("task_" ++ str_ℕ index)
or_default index (some id) = some id

-- `entry.setdefault("_id", f"task_{index}")`
unfoldable pub with_ids : ℕ → List Task → List Task
with_ids index [] = []
with_ids index (t ∷ tasks) =
    (record t { task_id = or_default index t.task_id }) ∷ with_ids (suc index) tasks

-- `str(v)` of a text or None
abbrev str_option : Option String → String
str_option none = "None"
str_option (some s) = s

-- `done_agents` and `done_ids`.
pub record Done : Type 0 where
  pub agents : List String
  pub ids : List String

unfoldable pub is_ready : Done → Task → Bool
is_ready done t = all (λ dep. contains done.agents dep || contains done.ids dep) t.depends_on

unfoldable pub add_wave : Done → List Task → Done
add_wave done [] = done
add_wave done (t ∷ wave) =
    add_wave
      (record { agents = str_option t.agent ∷ done.agents; ids = str_option t.task_id ∷ done.ids })
      wave

-- The wave of a round and what remains: all the rest where no task is ready.
abbrev force : List Task → List Task → List Task × List Task
force [] rest = (rest, [])
force (t ∷ wave) rest = (t ∷ wave, rest)

unfoldable pub next_wave : Done → List Task → List Task × List Task
next_wave done remaining =
    force (select (is_ready done) remaining) (select (λ t. not (is_ready done t)) remaining)

-- The loop. Each round takes a task at least, so that the number of tasks is enough fuel.
unfoldable pub waves_from : (fuel : ℕ) → Done → List Task → List (List Task)
unfolding next_wave add_wave
waves_from zero done remaining = []
waves_from (suc fuel) done [] = []
waves_from (suc fuel) done (t ∷ remaining) =
    let (wave, rest) = next_wave done (t ∷ remaining) in
    wave ∷ waves_from fuel (add_wave done wave) rest

unfoldable pub compute_execution_waves : List Task → List (List Task)
unfolding waves_from with_ids
compute_execution_waves subtasks =
    waves_from (length subtasks) (record { agents = []; ids = [] }) (with_ids 0 subtasks)
