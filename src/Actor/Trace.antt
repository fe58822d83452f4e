-- ===== src/Actor/Trace.antt =====
-- The steps that `run_actor_loop` of orchestrator/actor_loop.py takes between two states of its loop.
use tempa.Base.{
  ℕ, zero, suc, String, Bool, true, false, not, ◌&&◌, Option, none, some, List, [], ◌∷◌, ◌++◌, ◌==◌,
  any, length, ◌≡◌, ◌≤◌, refl, sym, ap, ◌∙◌, arith, inl, inr, Bool-cases,
}
use mathlib.Core.List.{append-nil, append_assoc}
use mathlib.Core.Option
use tempa.Base.Value.{Row}
use tempa.Base.Dict
use tempa.Base.Dict.{Dict, get-put}
use tempa.Waves.{Task}
use tempa.Actor.State.{Step, Context, Outside, State}
use tempa.Actor.Check.{verify_step, facts_of, entry, observed, observe_step}
use tempa.Actor.Plan.{Config, Decision, replan, ask_owner, fail_replan}
use tempa.Actor.Loop.{
  Run, Next, go, pause, clarify, broken, recorded, after_record, step_pauses, record_step, follow,
  recover, replan_or_clarify, decide, step_id, task_text, with_result, after_run, step, steps,
  proceed, registered, text_or,
}

-- What the steps and their results are, of the loop's variables.
abbrev pub view : {W : Type 0} → Run W → List Step × Dict String
view r = (r.ctx.step_results, r.results)

-- The results after some steps.
abbrev pub put_steps : List Step → Dict String → Dict String
put_steps [] d = d
put_steps (s ∷ steps) d = put_steps steps (Dict.put d s.agent s.result)

abbrev is_pause : Next → Bool
is_pause (go queue) = false
is_pause pause = true
is_pause (clarify question) = false
is_pause broken = false

abbrev pub is_paused : Option (Bool × Option String) → Bool
is_paused none = false
is_paused (some (paused, question)) = paused

module _ {W : Type 0} (o : Outside W) (config : Config) where
  -- The result of the step waits for the owner.
  abbrev pub pauses : Step → Bool
  pauses s = step_pauses o config s.agent s.result

  -- Every step but the last does not.
  abbrev pub Quiet : List Step → Type 0
  Quiet [] = Unit
  Quiet (s ∷ []) = Unit
  Quiet (s ∷ t ∷ steps) = (pauses s ≡ false) × Quiet (t ∷ steps)

  cons-Quiet : (s : Step) (new : List Step) → pauses s ≡ false → Quiet new → Quiet (s ∷ new)
  cons-Quiet s [] h q = tt
  cons-Quiet s (t ∷ new) h q = (h, q)

  view-registered :
      (question : String) (r : Run W) → view (registered o config (some question) r) ≡ view r
  view-registered question r = elim (Bool-cases (question == "")) [
    | inl e ↦ rw e refl
    | inr e ↦ rw e refl
  ]

  view-follow : (d : Decision) (r : Run W) → view (follow o config d r).1 ≡ view r
  unfolding follow
  view-follow (replan []) r = refl
  view-follow (replan (t ∷ tasks)) r = refl
  view-follow fail_replan r = refl
  view-follow (ask_owner question) r = view-registered question r

  is_pause-follow : (d : Decision) (r : Run W) → is_pause (follow o config d r).0 ≡ false
  unfolding follow
  is_pause-follow (replan []) r = refl
  is_pause-follow (replan (t ∷ tasks)) r = refl
  is_pause-follow fail_replan r = refl
  is_pause-follow (ask_owner question) r = refl

  recover-Sound :
      (user_message agent reason : String) (rest : List Task) (r : Run W)
      → (view (recover o config user_message agent reason rest r).1 ≡ view r)
        × (is_pause (recover o config user_message agent reason rest r).0 ≡ false)
  unfolding recover
  recover-Sound user_message agent reason rest r =
      let (decision, w) =
        replan_or_clarify o config user_message agent reason r.ctx rest r.state.world in
      let r' : Run W = record r { state = record r.state { world = w } } in
      (view-follow decision r', is_pause-follow decision r')

  -- The decision about the next step changes no results, and pauses where the step's result does.
  decide-Sound :
      (user_message agent raw : String) (rest : List Task) (r : Run W)
      → (view (decide o config user_message agent raw rest r).1 ≡ view r)
        × (is_pause (decide o config user_message agent raw rest r).0
            ≡ step_pauses o config agent raw)
  unfolding decide
  decide-Sound user_message agent raw rest r = elim (Bool-cases (step_pauses o config agent raw)) [
    | inl held ↦ rw held (refl, refl)
    | inr free ↦
        let (ok, reason) = verify_step agent raw (o.parse raw) in
        elim (Bool-cases (not ok && not (reason == "pending"))) [
          | inl bad ↦ rw (free, bad) (recover-Sound user_message agent reason rest r)
          | inr good ↦ rw (free, good) (refl, refl)
        ]
  ]

  -- What a round leaves: nothing where it was cancelled or raised, otherwise one more step.
  abbrev Outcome : Run W → Option Next × Run W → Type 0
  Outcome r (none, r') = view r' ≡ view r
  Outcome r (some next, r') =
      (s : Step) × (view r' ≡ (r.ctx.step_results ++ s ∷ [], Dict.put r.results s.agent s.result))
      × (pauses s ≡ is_pause next)

  after_record-Outcome :
      (user_message agent raw subtask_id task : String) (payload : Option Row) (rest : List Task)
      (ctx : Context) (r : Run W) (facts : Option (List String))
      → ctx.step_results ≡ r.ctx.step_results
      → Outcome r (
          after_record o config user_message agent raw rest r (
            Option.map
              (recorded o config agent raw r)
              (Option.map (λ f. observed f agent raw subtask_id task payload ctx) facts)))
  after_record-Outcome user_message agent raw subtask_id task payload rest ctx r none e = refl
  after_record-Outcome user_message agent raw subtask_id task payload rest ctx r (some f) e =
      let r' = recorded o config agent raw r (observed f agent raw subtask_id task payload ctx) in
      let d = decide-Sound user_message agent raw rest r' in
      let s = entry agent raw subtask_id task payload in
      (s, d.0 ∙ ap (λ xs. (xs ++ s ∷ [], Dict.put r.results agent raw)) e, sym d.1)

  after_run-Outcome :
      (idx : ℕ) (user_message : String) (t : Task) (rest : List Task) (r : Run W)
      (result : Option String × State W)
      → Outcome r (after_run o config idx user_message t rest r result)
  unfolding record_step observe_step
  after_run-Outcome idx user_message t rest r (none, s) = refl
  after_run-Outcome idx user_message t rest r (some raw, s) =
      after_record-Outcome user_message (text_or t.agent) raw (step_id idx t)
        (task_text user_message t) (o.parse raw) rest (with_result (text_or t.agent) raw r.ctx)
        (record r { state = s }) (facts_of o.size (text_or t.agent) raw (o.parse raw)) refl

  step-Outcome :
      (task_id user_message : String) (idx : ℕ) (t : Task) (rest : List Task) (r : Run W)
      → Outcome r (step o config task_id user_message idx t rest r)
  unfolding step
  step-Outcome task_id user_message idx t rest r =
      elim (Bool-cases (o.is_cancelled r.state.world)) [
        | inl e ↦ rw e refl
        | inr e ↦ rw e (after_run-Outcome idx user_message t rest r _)
      ]

  -- What the loop leaves: some steps after those before, no more than remained, of which the last
  -- alone may pause, and does where the loop ends in a pause.
  abbrev pub Trace : ℕ → Run W → Option (Bool × Option String) × Run W → Type 0
  Trace left r (end, r') =
      (new : List Step) × (view r' ≡ (r.ctx.step_results ++ new, put_steps new r.results))
      × (length new ≤ left)
      × Quiet new
      × (any pauses new ≡ is_paused end)

  no_steps-Trace :
      (left : ℕ) (end : Option (Bool × Option String)) (r r' : Run W)
      → is_paused end ≡ false
      → view r' ≡ view r
      → Trace left r (end, r')
  no_steps-Trace left end r r' e v = (
    [],
    v ∙ ap (λ xs. (xs, r.results)) (sym (append-nil r.ctx.step_results)),
    omega arith,
    tt,
    sym e,
  )

  -- A round before a loop: the step comes first.
  round-Trace :
      (left : ℕ) (s : Step) (r r' : Run W) (next : Next)
      (out : Option (Bool × Option String) × Run W)
      → view r' ≡ (r.ctx.step_results ++ s ∷ [], Dict.put r.results s.agent s.result)
      → pauses s ≡ false
      → Trace left r' out
      → Trace (suc left) r out
  round-Trace left s r r' next out v h (new, view_new, bound, quiet, ends) = (
    s ∷ new,
    view_new
        ∙ ap (λ p. (p.0 ++ new, put_steps new p.1)) v
        ∙ ap (λ xs. (xs, put_steps (s ∷ new) r.results))
            (append_assoc r.ctx.step_results (s ∷ []) new),
    omega (arith, bound),
    cons-Quiet s new h quiet,
    rw h ends,
  )

  proceed-Trace :
      (left : ℕ) (r : Run W) (continue : List Task → Run W → Option (Bool × Option String) × Run W)
      (round : Option Next × Run W)
      → Outcome r round
      → ((queue : List Task) (r' : Run W) → Trace left r' (continue queue r'))
      → Trace (suc left) r (proceed o config continue round)
  proceed-Trace left r continue (none, r') v later = no_steps-Trace (suc left) none r r' refl v
  proceed-Trace left r continue (some (go queue), r') (s, v, h) later =
      round-Trace left s r r' (go queue) (continue queue r') v h (later queue r')
  proceed-Trace left r continue (some broken, r') (s, v, h) later =
      (s ∷ [], v, omega arith, tt, rw h refl)
  proceed-Trace left r continue (some pause, r') (s, v, h) later =
      (s ∷ [], v, omega arith, tt, rw h refl)
  proceed-Trace left r continue (some (clarify question), r') (s, v, h) later =
      (s ∷ [], v, omega arith, tt, rw h refl)

  pub steps-Trace :
      (task_id user_message : String) (left idx : ℕ) (queue : List Task) (r : Run W)
      → Trace left r (steps o config task_id user_message left idx queue r)
  unfolding steps
  steps-Trace task_id user_message zero idx queue r =
      no_steps-Trace zero (some (false, none)) r r refl refl
  steps-Trace task_id user_message (suc left) idx [] r =
      no_steps-Trace (suc left) (some (false, none)) r r refl refl
  steps-Trace task_id user_message (suc left) idx (t ∷ rest) r =
      proceed-Trace left r (steps o config task_id user_message left (suc idx))
        (step o config task_id user_message idx t rest r)
        (step-Outcome task_id user_message idx t rest r)
        (steps-Trace task_id user_message left (suc idx))
