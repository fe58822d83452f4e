-- ===== src/Tasks.antt =====
-- The store of delegated tasks: core/task_store.py of src/tempa. The file is an optional dictionary of
-- records as `create_task` writes them, none where it is missing or no JSON object. Every function
-- takes it, and the time of its call where it reads the clock.
mod Examples
pub mod Progress
use Prim.Native.String.{[], ◌∷◌, ◌++◌}
use tempa.Base.{
  ℕ, zero, suc, String, Bool, true, false, not, ◌&&◌, ◌||◌, Option, none, some, List, ◌==◌, ◌+◌,
  ◌*◌, ltb, if◌then◌else◌, map, select, take,
}
use tempa.Base.Dict
use tempa.Base.Dict.{Dict}
use tempa.Base.Sort.{sort_desc}

-- `TaskStatus`; `SubtaskStatus` is the same without `stale`.
pub data Status : Type 0 where
  pending : Status
  in_progress : Status
  completed : Status
  failed : Status
  stale : Status

pub record Subtask : Type 0 where
  pub agent : String
  pub task : String
  pub status : Status

pub record Task : Type 0 where
  pub id : String
  pub user_message : String
  pub status : Status
  pub created_at : ℕ
  pub updated_at : ℕ
  pub subtasks : List Subtask

abbrev pub Store : Type 0
Store = Option (Dict Task)

abbrev pub read : Store → Dict Task
read none = List.[]
read (some tasks) = tasks

-- `s[:n]`
abbrev prefix : ℕ → String → String
prefix zero s = []
prefix (suc n) [] = []
prefix (suc n) (c ∷ s) = c ∷ prefix n s

-- A subtask of the call: its agent and its task, "" where the key is missing.
unfoldable pub new_subtask : String × String → Subtask
new_subtask (agent, task) = record { agent = agent; task = prefix 300 task; status = pending }

unfoldable pub new_task : String → String → List (String × String) → ℕ → Task
new_task id user_message subtasks now = record {
  id = id;
  user_message = prefix 500 user_message;
  status = in_progress;
  created_at = now;
  updated_at = now;
  subtasks = map new_subtask subtasks;
}

-- `create_task`, with the identifier that `uuid4` gave.
unfoldable pub create_task : String → String → List (String × String) → ℕ → Store → Store
create_task id user_message subtasks now store =
    some (Dict.put (read store) id (new_task id user_message subtasks now))

abbrev pub is_completed : Status → Bool
is_completed completed = true
is_completed _ = false

-- An open subtask of the agent.
unfoldable pub is_open : String → Subtask → Bool
is_open agent sub = sub.agent == agent && not (is_completed sub.status)

unfoldable pub update_first : String → Status → List Subtask → List Subtask
update_first agent status List.[] = List.[]
update_first agent status (List.◌∷◌ sub subs) =
    let rest = update_first agent status subs in
    if is_open agent sub then List.◌∷◌ (record sub { status = status }) subs else List.◌∷◌ sub rest

unfoldable pub updated_task : String → Status → ℕ → Task → Task
updated_task agent status now t = record t {
  subtasks = update_first agent status t.subtasks;
  updated_at = now;
}

-- What a call that looks a task up writes: nothing where it is missing.
abbrev pub write_found : (Task → Task) → String → Dict Task → Store → Option Task → Store
write_found f id tasks store none = store
write_found f id tasks store (some t) = some (Dict.put tasks id (f t))

unfoldable pub update_subtask : String → String → Status → ℕ → Store → Store
update_subtask id agent status now store =
    write_found (updated_task agent status now) id (read store) store (Dict.get (read store) id)

unfoldable pub complete_task : String → Status → ℕ → Store → Store
complete_task id status now store =
    write_found (λ t. record t { status = status; updated_at = now }) id (read store) store
      (Dict.get (read store) id)

abbrev pub is_going : Status → Bool
is_going pending = true
is_going in_progress = true
is_going _ = false

unfoldable pub list_active_tasks : Store → List Task
list_active_tasks store =
    sort_desc (λ t. t.created_at) (select (λ t. is_going t.status) (Dict.values (read store)))

unfoldable pub list_recent_tasks : ℕ → Store → List Task
list_recent_tasks limit store =
    take limit (sort_desc (λ t. t.updated_at) (Dict.values (read store)))

unfoldable pub get_task : String → Store → Option Task
get_task id store = Dict.get (read store) id

-- The time since the last update is longer than the age.
unfoldable pub is_stale : (max_age_hours : ℕ) → ℕ → Task → Bool
is_stale max_age_hours now t =
    is_going t.status && ltb (t.updated_at + max_age_hours * 3_600_000_000) now

abbrev pub swept_task : ℕ → ℕ → Task → Task
swept_task max_age_hours now t =
    if is_stale max_age_hours now t then record t { status = stale } else t

abbrev pub count_if : Bool → ℕ → ℕ
count_if true n = suc n
count_if false n = n

unfoldable pub stale_count : ℕ → ℕ → Dict Task → ℕ
stale_count max_age_hours now List.[] = 0
stale_count max_age_hours now (List.◌∷◌ (k, t) tasks) =
    count_if (is_stale max_age_hours now t) (stale_count max_age_hours now tasks)

unfoldable pub sweep_stale_tasks : (max_age_hours : ℕ) → ℕ → Store → ℕ × Store
sweep_stale_tasks max_age_hours now store = (
  stale_count max_age_hours now (read store),
  some (Dict.map_values (swept_task max_age_hours now) (read store)),
)

abbrev status_text : Status → String
status_text pending = "pending"
status_text in_progress = "in_progress"
status_text completed = "completed"
status_text failed = "failed"
status_text stale = "stale"

-- `sep.join(parts)`
abbrev join : String → List String → String
join sep List.[] = ""
join sep (List.◌∷◌ x List.[]) = x
join sep (List.◌∷◌ x (List.◌∷◌ y parts)) = x ++ sep ++ join sep (List.◌∷◌ y parts)

unfoldable pub summary_line : Task → String
summary_line t =
    "- "
    ++ prefix 80 t.user_message
    ++ " ["
    ++ join ", " (map (λ (s : Subtask). s.agent ++ ":" ++ status_text s.status) (take 4 t.subtasks))
    ++ "]"

abbrev summary : List Task → String
summary List.[] = ""
summary (List.◌∷◌ t tasks) =
    "Active tasks:\n" ++ join "\n" (map summary_line (take 5 (List.◌∷◌ t tasks)))

unfoldable pub format_active_tasks_summary : Store → String
unfolding summary_line
format_active_tasks_summary store = summary (list_active_tasks store)
