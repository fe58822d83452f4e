-- ===== src/Actor/Plan.antt =====
-- The queue of the actor loop, whether it is used, and what a model advises after a failed step:
-- orchestrator/actor_loop.py.
use Prim.Native.String.{◌++◌}
use tempa.Base.{
  ℕ, String, Bool, true, false, not, ◌&&◌, ◌||◌, none, some, List, [], ◌∷◌, ◌==◌, any, length, ltb,
  select, if◌then◌else◌,
}
use tempa.Waves.{Task, compute_execution_waves}
use tempa.Waves.Order.{concat}
use tempa.Actor.State.{Answer, advised, unanswered, unreached, Plan, no_list, planned, unusable}
use tempa.Actor.Check.{str_default}

-- The settings of the coordinator that the loop reads.
pub record Config : Type 0 where
  pub actor_max_steps : ℕ
  pub actor_replan_on_error : Bool

abbrev is_agent : String → Task → Bool
is_agent name t = elim t.agent [ none ↦ false | some agent ↦ agent == name ]

abbrev pub others_of : List Task → List Task
others_of subtasks = select (λ t. not (is_agent "rag" t)) subtasks

abbrev is_dependent : Task → Bool
is_dependent t = elim t.depends_on [ [] ↦ false | dep ∷ deps ↦ true ]

-- With `actor_loop_enabled()`. The test for a greeting decides nothing: both its branches are false.
unfoldable pub should_use_actor_loop : (enabled : Bool) → List Task → Bool
should_use_actor_loop enabled subtasks =
    let others = others_of subtasks in
    if not enabled
    then false
    else ltb 1 (length others)
      || any is_dependent others
      || (any (is_agent "meet") others && any (is_agent "channel") others)

unfoldable pub flatten_queue : List Task → List Task
flatten_queue subtasks = concat (compute_execution_waves subtasks)

-- What to do about a failed step; `fail_replan` is an exception that ends the run.
pub data Decision : Type 0 where
  replan : List Task → Decision
  ask_owner : String → Decision
  fail_replan : Decision

abbrev pub from_plan : (question : String) → Plan → Decision
from_plan question no_list = ask_owner question
from_plan question (planned tasks) = replan tasks
from_plan question unusable = fail_replan

unfoldable pub read_advice : (failed_agent failed_reason : String) → Answer → Decision
read_advice failed_agent failed_reason unreached = fail_replan
read_advice failed_agent failed_reason unanswered = ask_owner (
    "I couldn't complete the " ++ failed_agent ++ " step: " ++ failed_reason
    ++ ". What should I do?")
read_advice failed_agent failed_reason (advised advice) =
    let question =
      str_default advice.question
        ("Step " ++ failed_agent ++ " failed (" ++ failed_reason ++ "). How should I proceed?") in
    if str_default advice.action "clarify" == "replan"
    then from_plan question advice.subtasks
    else ask_owner question
