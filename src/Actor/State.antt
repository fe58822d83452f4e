-- ===== src/Actor/State.antt =====
-- What the actor loop carries: the context that the steps fill, and the world that the specialists
-- act on. The keys of the context that the loop neither reads nor writes stay outside.
use tempa.Base.{ℕ, String, Bool, Option, List, [], ◌∷◌, ◌++◌}
use tempa.Base.Dict.{Dict}
use tempa.Base.Value.{Value, Row}
use tempa.Tasks.{Store}
use tempa.Waves.{Task}

-- An entry of `step_results`.
pub record Step : Type 0 where
  pub agent : String
  pub subtask_id : String
  pub task : String
  pub result : String
  pub payload : Option Row

-- `agent_results` holds what the source keeps under the keys f"{agent}_result".
pub record Context : Type 0 where
  pub planned_steps : List (Option String × String)
  pub action_facts : List String
  pub step_results : List Step
  pub specialist_results : Dict String
  pub agent_results : Dict String

abbrev pub with_step : List Step → Step → List Step
with_step steps s = steps ++ s ∷ []

abbrev pub with_facts : List String → List String → List String
with_facts facts new = facts ++ new

-- What a runner does with a task: `stopped` is a CancelledError.
pub data Attempt : Type 0 where
  returned : String → Attempt
  raised : String → Attempt
  stopped : Attempt

-- What the answer of the model that replans has under `subtasks`: no list, tasks, or a list on which
-- `compute_execution_waves` raises, as it does for an item that is no dictionary or has a
-- `depends_on` that it cannot go through.
pub data Plan : Type 0 where
  no_list : Plan
  planned : List Task → Plan
  unusable : Plan

pub record Advice : Type 0 where
  pub action : Option Value
  pub question : Option Value
  pub subtasks : Plan

-- How asking the model ends: with its answer, with an exception that is caught, or with one that is
-- raised before the `try`.
pub data Answer : Type 0 where
  advised : Advice → Answer
  unanswered : Answer
  unreached : Answer

-- What the loop calls: `parse` is `json.loads` where it gives an object, `size` is `len` of a JSON
-- value, none where that raises, `runner` the table AGENT_RUNNERS, `ask` the model, and `register` the
-- memory of open questions.
pub record Outside (W : Type 0) : Type 0 where
  pub parse : String → Option Row
  pub size : Value → Option ℕ
  pub runner : String → Option ((task user_message : String) → Context → W → Attempt × W)
  pub is_cancelled : W → Bool
  pub clock : W → ℕ
  pub ask : (user_message agent reason : String) → Context → List Task → W → Answer × W
  pub register : String → Context → W → W

-- The world with the task store.
pub record State (W : Type 0) : Type 0 where
  pub world : W
  pub tasks : Store
