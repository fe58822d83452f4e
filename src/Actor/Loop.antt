-- ===== src/Actor/Loop.antt =====
-- `run_actor_loop` of orchestrator/actor_loop.py. The events that it publishes and the status lines
-- of the stream are left out.
use Prim.Native.String.{◌++◌}
use tempa.Base.{
  ℕ, zero, suc, String, Bool, true, false, not, ◌&&◌, Option, none, some, List, [], ◌∷◌, ◌==◌, map,
  if◌then◌else◌,
}
use mathlib.Core.Option
use tempa.Base.Dict
use tempa.Base.Dict.{Dict}
use tempa.Base.Text.{prefix}
use tempa.Base.Value.{str_ℕ}
use tempa.Waves.{Task}
use tempa.Actor.State.{Context, unanswered, Outside, State}
use tempa.Actor.Check.{verify_step, observe_step}
use tempa.Actor.Plan.{
  Config, Decision, replan, ask_owner, fail_replan, read_advice, others_of, flatten_queue,
}
use tempa.Actor.Collect.{Preview, collect_pending_from_results, add_new, needs_pause}
use tempa.Actor.Specialist.{run_specialist_with_retry}

-- What a step tells the loop: to go on with a queue, or to stop; `broken` is an exception.
pub data Next : Type 0 where
  go : List Task → Next
  pause : Next
  clarify : Option String → Next
  broken : Next

-- The variables of the loop.
pub record Run (W : Type 0) : Type 0 where
  pub results : Dict String
  pub ctx : Context
  pub pending_actions : List Preview
  pub state : State W

-- What the loop returns.
pub record Reply (W : Type 0) : Type 0 where
  pub final : Run W
  pub paused : Bool
  pub clarification : Option String

abbrev pub text_or : Option String → String
text_or none = ""
text_or (some s) = s

-- `str(task.get("_id") or f"{agent}-{idx}")`
abbrev pub step_id : (idx : ℕ) → Task → String
step_id idx t =
    if text_or t.task_id == "" then text_or t.agent ++ "-" ++ str_ℕ idx else text_or t.task_id

-- `str(task.get("task") or user_message)`
abbrev pub task_text : (user_message : String) → Task → String
task_text user_message t = if t.details == "" then user_message else t.details

-- `ctx[f"{agent}_result"] = raw`
abbrev pub with_result : (agent raw : String) → Context → Context
with_result agent raw ctx = record ctx {
  agent_results = Dict.put ctx.agent_results (agent ++ "_result") raw;
}

module _ {W : Type 0} (o : Outside W) (config : Config) where
  -- The state after the question about a failed step, with the decision.
  unfoldable pub replan_or_clarify :
      (user_message failed_agent failed_reason : String) → Context → List Task → W → Decision × W
  replan_or_clarify user_message failed_agent failed_reason ctx remaining w =
      if config.actor_replan_on_error
      then (let (advice, w') = o.ask user_message failed_agent failed_reason ctx remaining w in
          (read_advice failed_agent failed_reason advice, w'))
      else (read_advice failed_agent failed_reason unanswered, w)

  -- `register_open_clarification`, for a question that is not empty
  abbrev pub registered : Option String → Run W → Run W
  registered none r = r
  registered (some question) r =
      if question == ""
      then r
      else record r { state = record r.state { world = o.register question r.ctx r.state.world } }

  -- A plan with no tasks is no plan, and leaves no question either.
  unfoldable pub follow : Decision → Run W → Next × Run W
  follow (replan []) r = (clarify none, r)
  follow (replan (t ∷ tasks)) r = (go (flatten_queue (t ∷ tasks)), r)
  follow fail_replan r = (broken, r)
  follow (ask_owner question) r = (clarify (some question), registered (some question) r)

  -- The results and the pending actions after a step's result, with the context.
  abbrev pub recorded : (agent raw : String) → Run W → Context → Run W
  recorded agent raw r ctx = record r {
    results = Dict.put r.results agent raw;
    ctx = ctx;
    pending_actions =
        add_new r.pending_actions (collect_pending_from_results o.parse ((agent, raw) ∷ []));
  }

  -- None where `observe_step` raises.
  unfoldable pub record_step : (idx : ℕ) (user_message raw : String) → Task → Run W → Option (Run W)
  record_step idx user_message raw t r =
      let agent = text_or t.agent in
      Option.map (recorded agent raw r) (
        observe_step o.size agent raw (step_id idx t) (task_text user_message t) (o.parse raw)
          (with_result agent raw r.ctx))

  -- Whether the result of a step waits for the owner.
  unfoldable pub step_pauses : (agent raw : String) → Bool
  step_pauses agent raw = needs_pause (collect_pending_from_results o.parse ((agent, raw) ∷ []))

  unfoldable pub recover : (user_message agent reason : String) → List Task → Run W → Next × Run W
  unfolding follow
  recover user_message agent reason rest r =
      let (decision, w) = replan_or_clarify user_message agent reason r.ctx rest r.state.world in
      follow decision (record r { state = record r.state { world = w } })

  -- What comes after a step whose result is recorded.
  unfoldable pub decide : (user_message agent raw : String) → List Task → Run W → Next × Run W
  unfolding recover
  decide user_message agent raw rest r =
      let (ok, reason) = verify_step agent raw (o.parse raw) in
      if step_pauses agent raw
      then (pause, r)
      else if not ok && not (reason == "pending")
      then recover user_message agent reason rest r
      else (go rest, r)

  abbrev pub after_record :
      (user_message agent raw : String) → List Task → Run W → Option (Run W) → Option Next × Run W
  after_record user_message agent raw rest r none = (none, r)
  after_record user_message agent raw rest r (some r') =
      let (next, r'') = decide user_message agent raw rest r' in (some next, r'')

  abbrev pub after_run :
      (idx : ℕ) (user_message : String)
      → Task
      → List Task
      → Run W
      → Option String × State W
      → Option Next × Run W
  after_run idx user_message t rest r (none, s) = (none, record r { state = s })
  after_run idx user_message t rest r (some raw, s) =
      let r' : Run W = record r { state = s } in
      after_record user_message (text_or t.agent) raw rest r'
        (record_step idx user_message raw t r')

  -- The body of the loop; `none` where the run was cancelled or the step raised.
  unfoldable pub step :
      (task_id user_message : String) (idx : ℕ) → Task → List Task → Run W → Option Next × Run W
  step task_id user_message idx t rest r =
      if o.is_cancelled r.state.world
      then (none, r)
      else after_run idx user_message t rest r (
          run_specialist_with_retry o (text_or t.agent) (task_text user_message t) user_message
            task_id r.ctx r.state)

  -- How the loop ends: whether it paused, and the question; `none` is an exception.
  abbrev pub End : Type 0
  End = Option (Bool × Option String) × Run W

  abbrev pub proceed : (List Task → Run W → End) → Option Next × Run W → End
  proceed continue (none, r) = (none, r)
  proceed continue (some (go queue), r) = continue queue r
  proceed continue (some broken, r) = (none, r)
  proceed continue (some pause, r) = (some (true, none), r)
  proceed continue (some (clarify question), r) = (some (false, question), r)

  -- The loop: `left` is what remains of `actor_max_steps`, and the queue starts at `idx`.
  unfoldable pub steps : (task_id user_message : String) (left idx : ℕ) → List Task → Run W → End
  steps task_id user_message zero idx queue r = (some (false, none), r)
  steps task_id user_message (suc left) idx [] r = (some (false, none), r)
  steps task_id user_message (suc left) idx (t ∷ rest) r =
      proceed (steps task_id user_message left (suc idx)) (step task_id user_message idx t rest r)

  -- The pending actions of all results, and the pause that they ask for.
  unfoldable pub close : End → Option (Reply W)
  close (none, r) = none
  close (some (paused, question), r) =
      let pending = add_new r.pending_actions (collect_pending_from_results o.parse r.results) in
      some (record {
        final = record r { pending_actions = pending };
        paused = if paused then true else needs_pause pending;
        clarification = question;
      })

  abbrev pub override_or : Option (List Task) → List Task → List Task
  override_or none subtasks = others_of subtasks
  override_or (some queue) subtasks = queue

  -- The loop's variables before its first round.
  unfoldable pub first_run :
      (existing_results : Dict String) → List Task → Context → State W → Run W
  first_run existing_results queue ctx s = record {
    results = existing_results;
    ctx = record ctx { planned_steps = map (λ (t : Task). (t.agent, prefix 120 t.details)) queue };
    pending_actions = [];
    state = s;
  }

  unfoldable pub run_actor_loop :
      (user_message : String) (subtasks : List Task)
      → Context
      → (task_id : String) → (existing_results : Dict String) (queue_override : Option (List Task))
      → State W
      → Option (Reply W)
  unfolding close steps first_run
  run_actor_loop user_message subtasks ctx task_id existing_results queue_override s =
      let queue = flatten_queue (override_or queue_override subtasks) in
      close (
        steps task_id user_message config.actor_max_steps 0 queue
          (first_run existing_results queue ctx s))
