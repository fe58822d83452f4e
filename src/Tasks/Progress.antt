-- ===== src/Tasks/Progress.antt =====
-- How the tasks proceed: a subtask at a time, and the sweep of those that went stale.
use mathlib.Core.Option
use tempa.Base.{
  ℕ, String, Bool, true, false, Option, none, some, List, [], ◌∷◌, ◌==◌, ◌≡◌, ◌+◌, ◌-◌, ◌*◌, ◌<◌,
  refl, arith, length, select, eq_iff, ◌⊎◌, inl, inr, Bool-cases, lt→ltb,
}
use tempa.Base.Dict
use tempa.Base.Dict.{Dict, get-put_self, get-map_values}
use tempa.Base.Sort.{length-sort_desc}
use tempa.Tasks.{
  Status, pending, in_progress, completed, failed, stale, Subtask, Task, Store, read, is_open,
  update_first, updated_task, update_subtask, is_going, list_active_tasks, get_task, is_stale,
  swept_task, stale_count, count_if, sweep_stale_tasks,
}

-- How many open subtasks an agent has.
abbrev pub open_count : String → List Subtask → ℕ
open_count agent [] = 0
open_count agent (sub ∷ subs) = count_if (is_open agent sub) (open_count agent subs)

abbrev less_one : Bool → ℕ → ℕ
less_one true n = n - 1
less_one false n = n

open_count-update_first :
    (agent other : String) (subs : List Subtask)
    → open_count other (update_first agent completed subs)
      ≡ less_one (agent == other) (open_count other subs)
unfolding update_first is_open
open_count-update_first agent other [] = ground arith
open_count-update_first agent other (sub ∷ subs) = ground (
  arith,
  open_count-update_first agent other subs,
  eq_iff agent other,
  eq_iff sub.agent agent,
  eq_iff sub.agent other,
)

-- Completing a subtask of an agent takes one off its open subtasks, and none off another agent's.
pub open_count-update_subtask :
    (id agent other : String) (now : ℕ) (store : Store) (t : Task)
    → get_task id store ≡ some t
    → Option.map
        (λ (u : Task). open_count other u.subtasks)
        (get_task id (update_subtask id agent completed now store))
      ≡ some (less_one (agent == other) (open_count other t.subtasks))
unfolding get_task update_subtask updated_task
open_count-update_subtask id agent other now store t found =
    rw (found, get-put_self, open_count-update_first)

abbrev going : List Task → List Task
going tasks = select (λ t. is_going t.status) tasks

swept_count :
    (max_age_hours now : ℕ) (tasks : Dict Task)
    → length (going (Dict.values (Dict.map_values (swept_task max_age_hours now) tasks)))
        + stale_count max_age_hours now tasks
      ≡ length (going (Dict.values tasks))
unfolding Dict.map_values stale_count is_stale
swept_count max_age_hours now [] = refl
swept_count max_age_hours now ((k, t) ∷ tasks) = ground (arith, swept_count max_age_hours now tasks)

swept_again :
    (max_age_hours now : ℕ) (tasks : Dict Task)
    → stale_count max_age_hours now (Dict.map_values (swept_task max_age_hours now) tasks) ≡ 0
unfolding Dict.map_values stale_count is_stale
swept_again max_age_hours now [] = refl
swept_again max_age_hours now ((k, t) ∷ tasks) = ground (arith, swept_again max_age_hours now tasks)

-- The task is pending or in progress, and its last update is more than the hours ago.
abbrev pub IsOverdue : (max_age_hours : ℕ) → ℕ → Task → Type 0
IsOverdue max_age_hours now t =
    ((t.status ≡ pending) ⊎ (t.status ≡ in_progress))
    × (t.updated_at + max_age_hours * 3_600_000_000 < now)

-- What a sweep makes of a task: an overdue one turns stale, and any other stays as it was.
abbrev pub Swept : (max_age_hours : ℕ) → ℕ → Option Task → Option Task → Type 0
Swept max_age_hours now none after = after ≡ none
Swept max_age_hours now (some t) after =
    (IsOverdue max_age_hours now t × (after ≡ some (record t { status = stale })))
    ⊎ (¬ IsOverdue max_age_hours now t × (after ≡ some t))

is_going_lem :
    (status : Status) → is_going status ≡ true → (status ≡ pending) ⊎ (status ≡ in_progress)
is_going_lem pending h = inl refl
is_going_lem in_progress h = inr refl
is_going_lem completed h = cc h
is_going_lem failed h = cc h
is_going_lem stale h = cc h

going_status :
    (status : Status) → (status ≡ pending) ⊎ (status ≡ in_progress) → is_going status ≡ true
going_status status (inl e) = rw e refl
going_status status (inr e) = rw e refl

is_stale-IsOverdue :
    (max_age_hours now : ℕ) (t : Task)
    → is_stale max_age_hours now t ≡ true
    → IsOverdue max_age_hours now t
unfolding is_stale
is_stale-IsOverdue max_age_hours now t h =
    (is_going_lem t.status (ground (arith, h)), ground (arith, h))

IsOverdue-is_stale :
    (max_age_hours now : ℕ) (t : Task)
    → IsOverdue max_age_hours now t
    → is_stale max_age_hours now t ≡ true
unfolding is_stale
IsOverdue-is_stale max_age_hours now t (going, old) =
    rw (going_status t.status going) (lt→ltb (t.updated_at + max_age_hours * 3_600_000_000) now old)

swept_task-Swept :
    (max_age_hours now : ℕ) (found : Option Task)
    → Swept max_age_hours now found (Option.map (swept_task max_age_hours now) found)
swept_task-Swept max_age_hours now none = refl
swept_task-Swept max_age_hours now (some t) = elim (Bool-cases (is_stale max_age_hours now t)) [
  | inl old ↦ rw old (inl (is_stale-IsOverdue max_age_hours now t old, refl))
  | inr young ↦
      rw young (inr ((λ over. cc (young, IsOverdue-is_stale max_age_hours now t over)), refl))
]

-- A sweep turns the tasks stale that are pending or in progress and were last updated more than the
-- hours ago, and leaves every other task as it was. It counts the tasks that are active no more, and
-- a second one at the same time counts none.
pub sweep_stale_tasks_lem :
    (max_age_hours now : ℕ) (store : Store) (id : String)
    → Swept max_age_hours now
        (get_task id store)
        (get_task id (sweep_stale_tasks max_age_hours now store).1)
      × (length (list_active_tasks (sweep_stale_tasks max_age_hours now store).1)
            + (sweep_stale_tasks max_age_hours now store).0
          ≡ length (list_active_tasks store))
      × ((sweep_stale_tasks max_age_hours now (sweep_stale_tasks max_age_hours now store).1).0 ≡ 0)
unfolding sweep_stale_tasks list_active_tasks get_task
sweep_stale_tasks_lem max_age_hours now store id = (
  rw get-map_values (swept_task-Swept max_age_hours now (Dict.get (read store) id)),
  rw (length-sort_desc, length-sort_desc) (swept_count max_age_hours now (read store)),
  swept_again max_age_hours now (read store),
)
