-- ===== src/Actor/Examples.antt =====
-- A plan of three steps: the mail fails at first, and the message waits for the owner.
use Prim.Native.Char.{Char}
use tempa.Base.{
  ℕ, zero, suc, String, true, false, Option, none, some, List, [], ◌∷◌, ◌==◌, ◌≡◌, refl, length,
  if◌then◌else◌,
}
use tempa.Base.Dict
use tempa.Base.Dict.{Dict}
use tempa.Base.Value.{Value, Row, flag, num, text, texts}
use tempa.Waves.{Task}
use tempa.Actor.State.{Context, Attempt, returned, raised, unanswered, Outside, State}
use tempa.Actor.Plan.{Config}
use tempa.Actor.Loop.{run_actor_loop}
use tempa.Actor.Stops.{Stopped, Merged, run_actor_loop-Stopped, run_actor_loop-Merged}
use tempa.Actor.Rounds.{is_fine}

abbrev plan : List Task
plan =
    record { task_id = none; agent = some "gmail"; depends_on = []; details = "find the mail" }
    ∷ record {
      task_id = some "say";
      agent = some "channel";
      depends_on = "gmail" ∷ [];
      details = "tell Ada";
    }
    ∷ record { task_id = none; agent = some "pc"; depends_on = "say" ∷ []; details = "" }
    ∷ []

abbrev waiting : Row
waiting = ("status", text "pending") ∷ ("pending_action_id", text "a1") ∷ ("number", text "+1") ∷ []

-- The world is the number of calls so far: the second attempt succeeds.
abbrev mail : ℕ → Attempt × ℕ
mail zero = (raised "timeout", 1)
mail (suc n) = (returned "three mails", suc n)

abbrev runner : String → Option ((task user_message : String) → Context → ℕ → Attempt × ℕ)
runner agent =
    if agent == "gmail"
    then some (λ task user_message ctx w. mail w)
    else if agent == "channel"
    then some (λ task user_message ctx w. (returned "{pending}", w))
    else none

-- `len`, which a number does not have
abbrev size : Value → Option ℕ
size (texts xs) = some (length xs)
size (num n) = none
size (flag b) = none
size other = some 0

abbrev outside : Outside ℕ
outside = record {
  parse = λ raw. if raw == "{pending}" then some waiting else none;
  size = size;
  runner = runner;
  is_cancelled = λ w. false;
  clock = λ w. w;
  ask = λ user_message agent reason ctx remaining w. (unanswered, w);
  register = λ question ctx w. w;
}

abbrev config : Config
config = record { actor_max_steps = 8; actor_replan_on_error = true }

abbrev fresh : Context
fresh = record {
  planned_steps = [];
  action_facts = [];
  step_results = [];
  specialist_results = [];
  agent_results = [];
}

abbrev start : State ℕ
start = record { world = 0; tasks = none }

abbrev known : Dict String
known = ("rag", "notes") ∷ []

run_actor_loop-Stopped_example :
    Stopped outside config fresh
      (run_actor_loop outside config "tell Ada about the mail" plan fresh "" known none start)
run_actor_loop-Stopped_example =
    run_actor_loop-Stopped outside config "tell Ada about the mail" plan fresh "" known none start

run_actor_loop-Merged_example :
    Merged outside config "gmail" known
      (run_actor_loop outside config "tell Ada about the mail" plan fresh "" known none start)
run_actor_loop-Merged_example =
    run_actor_loop-Merged outside config "tell Ada about the mail" plan fresh "" known none start
      "gmail" refl refl

abbrev Fine : Option ((task user_message : String) → Context → ℕ → Attempt × ℕ) → Type 0
Fine none = Unit
Fine (some f) =
    (task user_message : String) (ctx : Context) (w : ℕ)
    → is_fine outside config (f task user_message ctx w).0 ≡ true
