-- ===== src/Pending/Examples.antt =====
-- Runs of the approval store on a proposal to write a file.
use tempa.Base.{ℕ, ◌≤◌, ◌≡◌, refl, true, false, none, some, List, [], ◌∷◌, All, ◌+◌}
use tempa.Base.Dict
use tempa.Base.Value.{Row, text}
use tempa.Base.Sort.{IsDescending}
use tempa.Pending.{
  Action, Store, Proposal, pending, expire, expire_stale, list_pending_actions, get_pending_action,
  mark_action, update_pending_payload, reject_pending_action,
}
use tempa.Pending.Title.{default_title, is_known, create_pending_action}
use tempa.Pending.Call.{returned, Outside}
use tempa.Pending.Executor.{run_executor}
use tempa.Pending.Execute.{
  done, capture, admit, begin_execution, continue_execution, finish_execution,
  execute_pending_action,
}
use tempa.Pending.Lifecycle.{stored}
use tempa.Pending.Once.{Event, create, begin, finish, run, step, AreFresh, occurrences, runs-le-one}
use tempa.Pending.Approval.{
  is_startable, Agrees, execute_unapproved, execute_approved, list_pending_current,
}

-- An outside that counts its calls, and answers each with an empty object.
abbrev counting : Outside ℕ
counting = record {
  perform = λ call w. (returned [], w + 1);
  github_token = λ repo w. (returned "t", w + 1);
  enqueue_target_scan = λ repo branch pr extra w. (returned "j", w + 1);
}

abbrev note : Row
note = ("path", text "/tmp/note") ∷ ("content", text "hi") ∷ []

abbrev write_note : Proposal
write_note = record {
  kind = "pc_write";
  payload = note;
  source_channel = "slack";
  risk_level = "medium";
  title = "";
}

program : Unit {0}
unfolding create_pending_action is_known default_title get_pending_action expire expire_stale
    mark_action begin_execution admit finish_execution Dict.get Dict.put Dict.map_values step run
    continue_execution execute_pending_action run_executor capture reject_pending_action
    update_pending_payload
program = tt

abbrev twice : List Event
twice =
    create none "a" write_note 10
    ∷ begin "a" 20
    ∷ begin "a" 21
    ∷ finish "a" 30 (returned []) (returned [])
    ∷ begin "a" 40
    ∷ []

twice-AreFresh : AreFresh twice (record { store = none; runs = [] })
unfolding program
twice-AreFresh = (refl, (tt, (tt, (tt, (tt, tt)))))

runs_of_twice : (run twice (record { store = none; runs = [] })).runs ≡ "a" ∷ []
unfolding program
runs_of_twice = refl

runs-le-one_example : occurrences "a" (run twice (record { store = none; runs = [] })).runs ≤ 1
runs-le-one_example = runs-le-one "a" twice none twice-AreFresh

abbrev waiting : Action
waiting = record {
  id = "a";
  kind = "pc_write";
  payload = note;
  status = pending;
  created_at = 10;
  updated_at = 10;
  expires_at = some 100;
  source_channel = "slack";
  risk_level = "medium";
  title = "PC write: /tmp/note";
  result = none;
}

abbrev one_action : Store
one_action = some (("a", waiting) ∷ [])

there : stored one_action "a" ≡ some waiting
unfolding Dict.get
there = refl

execute_unapproved_example : (execute_pending_action counting "a" 100 101 one_action 0).2 ≡ 0
execute_unapproved_example = execute_unapproved counting "a" 100 101 one_action 0 late
  where
    late : is_startable 100 (stored one_action "a") ≡ false
    late = unfold Dict.get in refl

execute_approved_example :
    ((execute_pending_action counting "a" 50 60 one_action 0).2 ≡ (
      let (ran, w) = run_executor counting "pc_write" note 0 in (capture counting waiting ran w).1))
    × Agrees counting "a"
        (execute_pending_action counting "a" 50 60 one_action 0).0
        (stored (execute_pending_action counting "a" 50 60 one_action 0).1 "a")
execute_approved_example = execute_approved counting "a" 50 60 one_action waiting 0 there refl

first_reply : (execute_pending_action counting "a" 50 60 one_action 0).0 ≡ done []
unfolding program
first_reply = refl

list_pending_current_example :
    IsDescending (λ a. a.created_at) (list_pending_actions (some pending) 50 one_action).0
    × All
        (λ a. is_startable 50 (some a) ≡ true)
        (list_pending_actions (some pending) 50 one_action).0
list_pending_current_example = list_pending_current 50 one_action
