-- ===== src/Pending/Execute.antt =====
-- `execute_pending_action` of core/pending_actions.py, in the halves before and after its `await`.
use tempa.Base.{ℕ, String, Option, none, some, [], ◌∷◌, ◌==◌, if◌then◌else◌}
use tempa.Base.Value.{Row, text}
use tempa.Pending.{
  Action, Store, Status, pending, approved, executed, failed, same_status, get_pending_action,
  mark_action,
}
use tempa.Pending.Call.{Outcome, returned, raised, capture_from_approval, Outside, Effect, pure}
use tempa.Pending.Executor.{run_executor}

-- The dicts that `execute_pending_action` returns.
pub data Reply : Type 0 where
  not_found : Reply
  idempotent : Option Row → Reply
  refused : Status → Reply
  done : Row → Reply
  broken : String → Reply

-- What happens up to the first `await`: the action that goes to the executor, or the early reply.
pub data Begun : Type 0 where
  early : Reply → Begun
  started : Action → Begun

unfoldable pub admit : Option Action → Begun
admit none = early not_found
admit (some a) =
    if same_status a.status executed
    then early (idempotent a.result)
    else if same_status a.status pending
    then started a
    else early (refused a.status)

abbrev pub begun_store : String → ℕ → Begun → Store → Store
begun_store id now (early r) store = store
begun_store id now (started a) store = (mark_action id approved none now store).1

unfoldable pub begin_execution : String → ℕ → Store → Begun × Store
unfolding admit
begin_execution id now store =
    let (found, store') = get_pending_action id now store in
    (admit found, begun_store id now (admit found) store')

abbrev pub error_result : String → Row
error_result e = ("status", text "error") ∷ ("reason", text e) ∷ []

-- What happens once the executor came back at the time `now`. Where the capture after it raises, an
-- action that was marked executed is marked failed.
unfoldable pub finish_execution :
    String → ℕ → (executor captured : Outcome Row) → Store → Reply × Store
finish_execution id now (raised e) captured store =
    (broken e, (mark_action id failed (some (error_result e)) now store).1)
finish_execution id now (returned result) (returned _) store =
    (done result, (mark_action id executed (some result) now store).1)
finish_execution id now (returned result) (raised e) store = (
  broken e,
  (mark_action id failed (some (error_result e)) now
      (mark_action id executed (some result) now store).1).1,
)

module _ {W : Type 0} (o : Outside W) where
  unfoldable pub capture : Action → Outcome Row → Effect W Row
  capture a (raised e) = pure []
  capture a (returned result) =
      if a.kind == "plan_preview"
      then pure []
      else o.perform (capture_from_approval a.kind a.payload)

  -- What follows the first half.
  unfoldable pub continue_execution : String → ℕ → Begun → Store → W → Reply × Store × W
  unfolding finish_execution capture
  continue_execution id later (early r) store w = (r, store, w)
  continue_execution id later (started a) store w =
      let (ran, w') = run_executor o a.kind a.payload w in
      let (captured, w'') = capture a ran w' in
      let (reply, store') = finish_execution id later ran captured store in (reply, store', w'')

  -- The whole call, with nothing else between its two halves.
  unfoldable pub execute_pending_action :
      (id : String) (now later : ℕ) → Store → W → Reply × Store × W
  execute_pending_action id now later store w =
      let (begun, store') = begin_execution id now store in
      continue_execution id later begun store' w
