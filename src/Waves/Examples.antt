-- ===== src/Waves/Examples.antt =====
-- Three subtasks, one of which waits for the others' agent and one for an agent that never comes.
use mathlib.Core.List.{Perm}
use tempa.Base.{none, some, List, [], ◌∷◌}
use tempa.Waves.{Task, with_ids, compute_execution_waves}
use tempa.Waves.Order.{concat, IsOrdered, compute_execution_waves_lem}

abbrev subtasks : List Task
subtasks =
    record { task_id = none; agent = some "mail"; depends_on = "web" ∷ []; details = "" }
    ∷ record { task_id = some "first"; agent = some "web"; depends_on = []; details = "" }
    ∷ record { task_id = none; agent = none; depends_on = "nobody" ∷ []; details = "" }
    ∷ []

compute_execution_waves_example :
    Perm (concat (compute_execution_waves subtasks)) (with_ids 0 subtasks)
    × IsOrdered (record { agents = []; ids = [] }) (compute_execution_waves subtasks)
compute_execution_waves_example = compute_execution_waves_lem subtasks
