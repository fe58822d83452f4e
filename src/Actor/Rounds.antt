-- ===== src/Actor/Rounds.antt =====
-- When a round of `run_actor_loop` of orchestrator/actor_loop.py raises nothing.
use mathlib.Core.Option
use tempa.Base.{
  ℕ, String, Bool, true, false, not, ◌&&◌, ◌||◌, Option, none, some, List, [], ◌∷◌, ◌==◌, ◌≡◌, refl,
  inl, inr, Bool-cases,
}
use tempa.Base.Dict
use tempa.Base.Dict.{Dict}
use tempa.Base.Value.{Value, Row}
use tempa.Waves.{Task}
use tempa.Actor.State.{
  Context, Attempt, returned, raised, stopped, Plan, no_list, planned, unusable, Answer, advised,
  unanswered, unreached, Outside, State,
}
use tempa.Actor.Check.{
  str_default, verify_step, is_true, is_present, size_or, count_of, payload_fact, facts_of,
  observe_step,
}
use tempa.Actor.Plan.{Config, read_advice, from_plan}
use tempa.Actor.Loop.{
  Run, Next, go, pause, clarify, broken, follow, recover, replan_or_clarify, decide, step_pauses,
  record_step, text_or, after_record, after_run, proceed, close,
}

abbrev pub is_some : {A : Type 0} → Option A → Bool
is_some none = false
is_some (some x) = true

-- The list is one that `compute_execution_waves` can plan, or is no list.
abbrev pub is_usable : Plan → Bool
is_usable no_list = true
is_usable (planned tasks) = true
is_usable unusable = false

abbrev pub is_answer : Answer → Bool
is_answer (advised advice) = is_usable advice.subtasks
is_answer unanswered = true
is_answer unreached = false

-- The result is no object, or its messages have a length where the length is taken.
abbrev pub is_measured : (Value → Option ℕ) → Option Row → Bool
is_measured size none = true
is_measured size (some payload) =
    is_true (Dict.get payload "status")
    || not (is_present (Dict.get payload "messages"))
    || is_some (size_or size (Dict.get payload "messages"))

is_some-map : {A B : Type 0} (f : A → B) (x : Option A) → is_some (Option.map f x) ≡ is_some x
is_some-map f none = refl
is_some-map f (some a) = refl

is_some-count_of : (count : Option Value) (n : Option ℕ) → is_some (count_of count n) ≡ is_some n
unfolding count_of
is_some-count_of count none = refl
is_some-count_of none (some n) = refl
is_some-count_of (some v) (some n) = refl

payload_fact-measured :
    (size : Value → Option ℕ) (agent : String) (payload : Row)
    → is_measured size (some payload) ≡ true
    → is_some (payload_fact size agent payload) ≡ true
unfolding payload_fact
payload_fact-measured size agent payload h =
    elim (Bool-cases (is_true (Dict.get payload "status"))) [
      | inl status ↦ rw status refl
      | inr quiet ↦ elim (Bool-cases (is_present (Dict.get payload "messages"))) [
        | inl there ↦ rw (quiet, there, is_some-map, is_some-count_of) (rw (quiet, there) at h)
        | inr absent ↦ elim (Bool-cases (is_present (Dict.get payload "open_findings"))) [
          | inl listed ↦ rw (quiet, absent, listed) refl
          | inr other ↦ rw (quiet, absent, other) refl
        ]
      ]
    ]

facts_of-measured :
    (size : Value → Option ℕ) (agent raw : String) (payload : Option Row)
    → is_measured size payload ≡ true
    → is_some (facts_of size agent raw payload) ≡ true
unfolding facts_of
facts_of-measured size agent raw none h = refl
facts_of-measured size agent raw (some []) h = refl
facts_of-measured size agent raw (some (field ∷ fields)) h =
    rw is_some-map (payload_fact-measured size agent (field ∷ fields) h)

-- A step that lets the loop go on or end it with a reply.
abbrev pub is_next : Option Next → Bool
is_next none = false
is_next (some (go queue)) = true
is_next (some pause) = true
is_next (some (clarify question)) = true
is_next (some broken) = false

module _ {W : Type 0} (o : Outside W) (config : Config) where
  -- The attempt was not stopped, and its result can be measured.
  abbrev pub is_fine : Attempt → Bool
  is_fine (returned result) = is_measured o.size (o.parse result)
  is_fine (raised error) = true
  is_fine stopped = false

  abbrev pub is_result : Option String → Bool
  is_result none = false
  is_result (some raw) = is_measured o.size (o.parse raw)

  follow-plan :
      (question : String) (plan : Plan) (r : Run W)
      → is_usable plan ≡ true
      → is_next (some (follow o config (from_plan question plan) r).0) ≡ true
  unfolding follow
  follow-plan question no_list r h = refl
  follow-plan question (planned []) r h = refl
  follow-plan question (planned (t ∷ tasks)) r h = refl
  follow-plan question unusable r h = absurd cc

  follow-read_advice :
      (agent reason : String) (answer : Answer) (r : Run W)
      → is_answer answer ≡ true
      → is_next (some (follow o config (read_advice agent reason answer) r).0) ≡ true
  unfolding follow read_advice
  follow-read_advice agent reason unreached r h = absurd cc
  follow-read_advice agent reason unanswered r h = refl
  follow-read_advice agent reason (advised advice) r h =
      elim (Bool-cases (str_default advice.action "clarify" == "replan")) [
        | inl again ↦ rw again (follow-plan _ advice.subtasks r h)
        | inr other ↦ rw other refl
      ]

  module _
      (reached : (user_message agent reason : String) (ctx : Context) (remaining : List Task)
          (w : W)
        → is_answer (o.ask user_message agent reason ctx remaining w).0 ≡ true) where
    recover-next :
        (user_message agent reason : String) (rest : List Task) (r : Run W)
        → is_next (some (recover o config user_message agent reason rest r).0) ≡ true
    unfolding recover replan_or_clarify
    recover-next user_message agent reason rest r = elim (Bool-cases config.actor_replan_on_error) [
      | inl asks ↦ rw asks (
          follow-read_advice agent reason _ _
            (reached user_message agent reason r.ctx rest r.state.world))
      | inr never ↦ rw never (follow-read_advice agent reason unanswered _ refl)
    ]

    decide-next :
        (user_message agent raw : String) (rest : List Task) (r : Run W)
        → is_next (some (decide o config user_message agent raw rest r).0) ≡ true
    unfolding decide
    decide-next user_message agent raw rest r = elim (Bool-cases (step_pauses o config agent raw)) [
      | inl held ↦ rw held refl
      | inr free ↦
          let (ok, reason) = verify_step agent raw (o.parse raw) in
          elim (Bool-cases (not ok && not (reason == "pending"))) [
            | inl bad ↦ rw (free, bad) (recover-next user_message agent reason rest r)
            | inr good ↦ rw (free, good) refl
          ]
    ]

    after_record-next :
        (user_message agent raw : String) (rest : List Task) (r : Run W) (found : Option (Run W))
        → is_some found ≡ true
        → is_next (after_record o config user_message agent raw rest r found).0 ≡ true
    after_record-next user_message agent raw rest r none h = absurd cc
    after_record-next user_message agent raw rest r (some r') h =
        decide-next user_message agent raw rest r'

    record_step-some :
        (idx : ℕ) (user_message raw : String) (t : Task) (r : Run W)
        → is_measured o.size (o.parse raw) ≡ true
        → is_some (record_step o config idx user_message raw t r) ≡ true
    unfolding record_step observe_step
    record_step-some idx user_message raw t r h =
        rw (is_some-map, is_some-map)
          (facts_of-measured o.size (text_or t.agent) raw (o.parse raw) h)

    pub after_run-next :
        (idx : ℕ) (user_message : String) (t : Task) (rest : List Task) (r : Run W)
        (result : Option String × State W)
        → is_result result.0 ≡ true
        → is_next (after_run o config idx user_message t rest r result).0 ≡ true
    after_run-next idx user_message t rest r (none, s) h = absurd cc
    after_run-next idx user_message t rest r (some raw, s) h =
        after_record-next user_message (text_or t.agent) raw rest (record r { state = s }) _
          (record_step-some idx user_message raw t (record r { state = s }) h)

    pub proceed-return :
        (continue : List Task → Run W → Option (Bool × Option String) × Run W)
        (round : Option Next × Run W)
        → is_next round.0 ≡ true
        → ((queue : List Task) (r : Run W) → is_some (continue queue r).0 ≡ true)
        → is_some (proceed o config continue round).0 ≡ true
    proceed-return continue (none, r) h later = absurd cc
    proceed-return continue (some (go queue), r) h later = later queue r
    proceed-return continue (some pause, r) h later = refl
    proceed-return continue (some (clarify question), r) h later = refl
    proceed-return continue (some broken, r) h later = absurd cc

    pub close-return :
        (end : Option (Bool × Option String) × Run W)
        → is_some end.0 ≡ true
        → is_some (close o config end) ≡ true
    unfolding close
    close-return (none, r) h = absurd cc
    close-return (some (paused, question), r) h = refl
