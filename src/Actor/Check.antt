-- ===== src/Actor/Check.antt =====
-- `verify_step`, `observe_step` and `results_for_merge` of orchestrator/step_verify.py.
use Prim.Native.String.{◌++◌}
use tempa.Base.{
  ℕ, String, Bool, true, false, not, ◌&&◌, Option, none, some, List, [], ◌∷◌, ◌==◌, any,
  if◌then◌else◌,
}
use mathlib.Core.Option
use tempa.Base.Dict
use tempa.Base.Dict.{Dict}
use tempa.Base.Text.{strip, starts_with, prefix}
use tempa.Base.Value.{Value, Row, truthy, str, str_ℕ, is_text}
use tempa.Base.Match.{includes_lower, pattern_found}
use tempa.Actor.State.{Step, Context, with_step, with_facts}

abbrev pub plain_error_markers : List String
plain_error_markers =
    "not connected" ∷ "failed after retries" ∷ "unknown agent:" ∷ "search failed" ∷ "could not find"
    ∷ []

unfoldable pub agent_error : (agent raw : String) → Bool
unfolding pattern_found
agent_error agent raw =
    if agent == "gmail"
    then pattern_found "gmail" ("not connected" ∷ "failed" ∷ []) raw
    else if agent == "calendar"
    then pattern_found "calendar" ("not connected" ∷ []) raw
    else false

unfoldable pub is_plain_error : String → Bool
unfolding includes_lower
is_plain_error raw =
    not (strip raw == "")
    && not (starts_with (strip raw) "{")
    && any (includes_lower raw) ("error" ∷ "failed" ∷ "not connected" ∷ [])

-- `verify_step` where the result is no JSON object
unfoldable pub verify_text : (agent raw : String) → Bool × String
unfolding includes_lower
verify_text agent raw =
    if includes_lower raw "failed after retries"
    then (false, "specialist failed")
    else if any (includes_lower raw) plain_error_markers
    then (false, prefix 160 raw)
    else if agent_error agent raw
    then (false, prefix 160 raw)
    else if is_plain_error raw
    then (false, prefix 160 raw)
    else (true, "")

-- `str(v or default)`
abbrev pub str_default : Option Value → String → String
unfolding str
str_default none default = default
str_default (some v) default = if truthy v then str v else default

unfoldable pub verify_step : (agent raw : String) → Option Row → Bool × String
verify_step agent raw none = verify_text agent raw
verify_step agent raw (some payload) =
    let status = Dict.get payload "status" in
    if is_text status "pending"
    then (true, "pending")
    else if is_text status "error"
    then (false, str_default (Dict.get payload "reason") "error")
    else (true, "")

abbrev pub is_present : Option Value → Bool
is_present none = false
is_present (some Value.null) = false
is_present (some v) = true

abbrev pub is_true : Option Value → Bool
is_true none = false
is_true (some v) = truthy v

-- ` reason=...`, where there is one
abbrev reason_text : Option Value → String
unfolding str
reason_text v = if is_true v then " reason=" ++ prefix 120 (str_default v "") else ""

-- `len(v or [])`, none where it raises
abbrev pub size_or : (Value → Option ℕ) → Option Value → Option ℕ
size_or size none = some 0
size_or size (some v) = if truthy v then size v else some 0

-- `payload.get("count", n)`, for a length that is taken in any case
unfoldable pub count_of : Option Value → Option ℕ → Option String
unfolding str
count_of count none = none
count_of (some v) (some n) = some (str v)
count_of none (some n) = some (str_ℕ n)

-- The fact that a step adds, for a payload with something in it; none where it raises.
unfoldable pub payload_fact : (Value → Option ℕ) → String → Row → Option String
unfolding str
payload_fact size agent payload =
    let status = Dict.get payload "status" in
    if is_true status
    then some (
        "["
        ++ agent
        ++ "] status="
        ++ str_default status ""
        ++ reason_text (Dict.get payload "reason"))
    else if is_present (Dict.get payload "messages")
    then Option.map (λ count. "[" ++ agent ++ "] found " ++ count ++ " messages")
        (count_of (Dict.get payload "count") (size_or size (Dict.get payload "messages")))
    else if is_present (Dict.get payload "open_findings")
    then some ("[" ++ agent ++ "] qa findings listed")
    else some ("[" ++ agent ++ "] completed")

abbrev text_facts : (agent raw : String) → List String
text_facts agent raw = if strip raw == "" then [] else ("[" ++ agent ++ "] " ++ prefix 200 raw) ∷ []

unfoldable pub facts_of :
    (Value → Option ℕ) → (agent raw : String) → Option Row → Option (List String)
facts_of size agent raw none = some (text_facts agent raw)
facts_of size agent raw (some []) = some (text_facts agent raw)
facts_of size agent raw (some (field ∷ fields)) =
    Option.map (λ fact. fact ∷ []) (payload_fact size agent (field ∷ fields))

-- The entry of a step
abbrev pub entry : (agent raw subtask_id task : String) → Option Row → Step
entry agent raw subtask_id task payload = record {
  agent = agent;
  subtask_id = if subtask_id == "" then agent else subtask_id;
  task = prefix 120 task;
  result = raw;
  payload = payload;
}

-- The context after the new facts of a step.
abbrev pub observed :
    (facts : List String) → (agent raw subtask_id task : String) → Option Row → Context → Context
observed facts agent raw subtask_id task payload ctx = record ctx {
  action_facts = with_facts ctx.action_facts facts;
  step_results = with_step ctx.step_results (entry agent raw subtask_id task payload);
  specialist_results = Dict.put ctx.specialist_results agent raw;
}

-- `observe_step`, with the payload that `parse_step_result` gave; none where it raises, as `len` of a
-- number does.
unfoldable pub observe_step :
    (Value → Option ℕ)
    → (agent raw subtask_id task : String) → Option Row
    → Context
    → Option Context
observe_step size agent raw subtask_id task payload ctx =
    Option.map (λ facts. observed facts agent raw subtask_id task payload ctx)
      (facts_of size agent raw payload)

-- The loop of `results_for_merge`.
unfoldable pub merge_steps : List Step → Dict String → Dict String
merge_steps [] merged = merged
merge_steps (s ∷ steps) merged =
    merge_steps steps (if s.agent == "" then merged else Dict.put merged s.agent s.result)

unfoldable pub results_for_merge : Context → Dict String → Dict String
results_for_merge ctx base = merge_steps ctx.step_results base
