-- ===== src/Tasks/Examples.antt =====
-- A store with a task of two subtasks.
use tempa.Base.{some, [], ◌∷◌, ◌≡◌, ◌+◌, refl, length}
use tempa.Base.Dict
use tempa.Tasks.{Task, Store, in_progress, pending, get_task, list_active_tasks, sweep_stale_tasks}
use tempa.Tasks.Progress.{Swept, sweep_stale_tasks_lem}

abbrev task : Task
task = record {
  id = "t";
  user_message = "Plan the week";
  status = in_progress;
  created_at = 10;
  updated_at = 20;
  subtasks =
      record { agent = "mail"; task = "Read"; status = pending }
      ∷ record { agent = "mail"; task = "Reply"; status = pending }
      ∷ [];
}

abbrev store : Store
store = some (("t", task) ∷ [])

found : get_task "t" store ≡ some task
unfolding get_task Dict.get
found = refl

sweep_stale_tasks_lem_example :
    Swept 24 90_000_000_000
      (get_task "t" store)
      (get_task "t" (sweep_stale_tasks 24 90_000_000_000 store).1)
    × (length (list_active_tasks (sweep_stale_tasks 24 90_000_000_000 store).1)
          + (sweep_stale_tasks 24 90_000_000_000 store).0
        ≡ length (list_active_tasks store))
    × ((sweep_stale_tasks 24 90_000_000_000 (sweep_stale_tasks 24 90_000_000_000 store).1).0 ≡ 0)
sweep_stale_tasks_lem_example = sweep_stale_tasks_lem 24 90_000_000_000 store "t"
