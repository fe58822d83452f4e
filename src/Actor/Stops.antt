-- ===== src/Actor/Stops.antt =====
-- Where `run_actor_loop` of orchestrator/actor_loop.py stops, and the results that it returns.
use tempa.Base.{
  String, Bool, true, false, ◌||◌, Option, none, some, List, [], ◌∷◌, ◌++◌, ◌==◌, any, length, ◌≡◌,
  ◌≤◌, refl, ap, ◌∙◌, arith, inl, inr, if◌then◌else◌, Bool-cases, eq_iff,
}
use tempa.Base.Dict
use tempa.Base.Dict.{Dict, get-put}
use tempa.Waves.{Task}
use tempa.Actor.State.{Step, Context, Outside, State}
use tempa.Actor.Check.{merge_steps, results_for_merge}
use tempa.Actor.Collect.{needs_pause}
use tempa.Actor.Plan.{Config, flatten_queue}
use tempa.Actor.Loop.{Run, Reply, steps, close, first_run, run_actor_loop, override_or}
use tempa.Actor.Trace.{put_steps, pauses, Quiet, Trace, steps-Trace}

if_or : (b c : Bool) → (if b then true else c) ≡ (b || c)
if_or true c = refl
if_or false c = refl

module _ {W : Type 0} (o : Outside W) (config : Config) where
  -- A reply after some new steps: no more than `actor_max_steps`, and none after one whose result
  -- waits for the owner. The reply is paused where such a step ended the loop or the pending actions
  -- of all the results ask for it.
  abbrev pub Stopped : Context → Option (Reply W) → Type 0
  Stopped ctx none = Unit
  Stopped ctx (some reply) =
      (new : List Step) × (reply.final.ctx.step_results ≡ ctx.step_results ++ new)
      × (length new ≤ config.actor_max_steps)
      × Quiet o config new
      × (reply.paused ≡ (any (pauses o config) new || needs_pause reply.final.pending_actions))

  close-Stopped :
      (ctx : Context) (r : Run W) (end : Option (Bool × Option String) × Run W)
      → r.ctx.step_results ≡ ctx.step_results
      → Trace o config config.actor_max_steps r end
      → Stopped ctx (close o config end)
  unfolding close
  close-Stopped ctx r (none, r') e t = tt
  close-Stopped ctx r (some (paused, question), r') e (new, v, bound, quiet, ends) =
      (new, ap (λ p. p.0) v ∙ ap (λ xs. xs ++ new) e, bound, quiet, rw ends (if_or paused _))

  -- Whatever the specialists, the model and the plans do: the loop takes at most `actor_max_steps`
  -- steps, replans included, and none after a step whose result waits for the owner's approval; and
  -- the reply says that it is paused exactly where such a step was taken or the pending actions ask
  -- for it.
  pub run_actor_loop-Stopped :
      (user_message : String) (subtasks : List Task) (ctx : Context) (task_id : String)
      (existing_results : Dict String) (queue_override : Option (List Task)) (s : State W)
      → Stopped ctx (
          run_actor_loop o config user_message subtasks ctx task_id existing_results queue_override
            s)
  unfolding run_actor_loop first_run
  run_actor_loop-Stopped user_message subtasks ctx task_id existing_results queue_override s =
      let queue = flatten_queue (override_or o config queue_override subtasks) in
      let r : Run W = first_run o config existing_results queue ctx s in
      close-Stopped ctx r (steps o config task_id user_message config.actor_max_steps 0 queue r)
        refl (steps-Trace o config task_id user_message config.actor_max_steps 0 queue r)

  get-put_steps :
      (agent : String) (new : List Step) (d d' : Dict String)
      → (agent == "") ≡ false
      → Dict.get d agent ≡ Dict.get d' agent
      → Dict.get (put_steps new d) agent ≡ Dict.get (merge_steps new d') agent
  unfolding merge_steps
  get-put_steps agent [] d d' named e = e
  get-put_steps agent (s ∷ new) d d' named e = elim (Bool-cases (s.agent == "")) [
    | inl blank ↦ rw blank (
        get-put_steps agent new (Dict.put d s.agent s.result) d' named
          (rw get-put (ground (arith, e, blank, named, eq_iff s.agent agent, eq_iff s.agent ""))))
    | inr filled ↦ rw filled (
        get-put_steps agent new (Dict.put d s.agent s.result) (Dict.put d' s.agent s.result) named
          (rw (get-put, get-put) (ap (λ v. if s.agent == agent then some s.result else v) e)))
  ]

  -- The reply's result of an agent is the one that its context gives.
  abbrev pub Merged : String → Dict String → Option (Reply W) → Type 0
  Merged agent existing_results none = Unit
  Merged agent existing_results (some reply) =
      Dict.get reply.final.results agent
      ≡ Dict.get (results_for_merge reply.final.ctx existing_results) agent

  close-Merged :
      (agent : String) (r : Run W) (end : Option (Bool × Option String) × Run W)
      → (agent == "") ≡ false
      → r.ctx.step_results ≡ []
      → Trace o config config.actor_max_steps r end
      → Merged agent r.results (close o config end)
  unfolding close results_for_merge
  close-Merged agent r (none, r') named e t = tt
  close-Merged agent r (some (paused, question), r') named e (new, v, bound, quiet, ends) =
      let kept : r'.ctx.step_results ≡ new = ap (λ p. p.0) v ∙ ap (λ xs. xs ++ new) e in
      rw (kept, ap (λ p. p.1) v) (get-put_steps agent new r.results r.results named refl)

  -- Where no steps were taken before, merging the steps that the context records over the results
  -- that were there gives each agent the result that the loop returns for it: that of the agent's
  -- last step, or the one from before. The empty name is left out.
  pub run_actor_loop-Merged :
      (user_message : String) (subtasks : List Task) (ctx : Context) (task_id : String)
      (existing_results : Dict String) (queue_override : Option (List Task)) (s : State W)
      (agent : String)
      → ctx.step_results ≡ []
      → (agent == "") ≡ false
      → Merged agent existing_results (
          run_actor_loop o config user_message subtasks ctx task_id existing_results queue_override
            s)
  unfolding run_actor_loop first_run
  run_actor_loop-Merged user_message subtasks ctx task_id existing_results queue_override s agent
        fresh named =
      let queue = flatten_queue (override_or o config queue_override subtasks) in
      let r : Run W = first_run o config existing_results queue ctx s in
      close-Merged agent r (steps o config task_id user_message config.actor_max_steps 0 queue r)
        named fresh (steps-Trace o config task_id user_message config.actor_max_steps 0 queue r)
