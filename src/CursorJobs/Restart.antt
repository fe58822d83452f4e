-- ===== src/CursorJobs/Restart.antt =====
-- `interrupt_stale_active_jobs` of channels/slack/cursor_jobs.py.
use mathlib.Core.Option
use tempa.Base.{
  ℕ, ◌+◌, String, true, false, ◌≡◌, refl, List, [], ◌∷◌, arith, if◌then◌else◌, inl, inr, Bool-cases,
  length,
}
use tempa.Base.Dict
use tempa.Base.Dict.{Dict, dict_laws, get-map_values}
use tempa.Base.Value.{Row, str_or, text, time}
use tempa.Disk.{Disk, read_statuses, write_statuses}
use tempa.CursorJobs.{status_in, count_rows, count_active_jobs, active_statuses}

abbrev pub in_flight : List String
in_flight = "running" ∷ "waiting_ci" ∷ "fixing_ci" ∷ "running_tests" ∷ []

unfoldable pub interrupted_row : ℕ → Row → Row
interrupted_row now r =
    Dict.put
      (Dict.put (Dict.put (Dict.put r "status" (text "interrupted")) "phase" (text "interrupted"))
        "error" (text "Tempa restarted while this job was in progress"))
      "updated_at" (time now)

unfoldable pub interrupt_if : ℕ → Row → Row
interrupt_if now r = if status_in in_flight r then interrupted_row now r else r

-- The rows that were interrupted, in the order of the file.
unfoldable pub interrupted_rows : ℕ → Dict Row → List Row
interrupted_rows now [] = []
interrupted_rows now ((k, r) ∷ rows) =
    let rest = interrupted_rows now rows in
    if status_in in_flight r then interrupted_row now r ∷ rest else rest

unfoldable pub interrupt_stale_active_jobs : ℕ → Disk → List Row × Disk
interrupt_stale_active_jobs now d =
    let rows = read_statuses d in
    (interrupted_rows now rows, write_statuses (Dict.map_values (interrupt_if now) rows) d)

status-interrupted_row :
    (now : ℕ) (r : Row) → str_or (Dict.get (interrupted_row now r) "status") ≡ "interrupted"
unfolding interrupted_row str_or
status-interrupted_row now r = simp dict_laws

active_interrupted : (now : ℕ) (r : Row) → status_in active_statuses (interrupted_row now r) ≡ false
unfolding status_in
active_interrupted now r = rw status-interrupted_row

flying_interrupted : (now : ℕ) (r : Row) → status_in in_flight (interrupted_row now r) ≡ false
unfolding status_in
flying_interrupted now r = rw status-interrupted_row

-- A job in flight is active.
active_of_flying : (r : Row) → status_in in_flight r ≡ true → status_in active_statuses r ≡ true
unfolding status_in
active_of_flying r h = ground arith

rows_split :
    (now : ℕ) (rows : Dict Row)
    → count_rows (status_in active_statuses) (Dict.map_values (interrupt_if now) rows)
        + length (interrupted_rows now rows)
      ≡ count_rows (status_in active_statuses) rows
unfolding count_rows Dict.map_values interrupted_rows interrupt_if
rows_split now [] = omega arith
rows_split now ((k, r) ∷ rows) = elim (Bool-cases (status_in in_flight r)) [
  | inl live ↦
      rw (live, active_interrupted, active_of_flying r live) (omega (arith, rows_split now rows))
  | inr idle ↦ rw idle (ground (arith, rows_split now rows))
]

none_flying :
    (now : ℕ) (rows : Dict Row)
    → count_rows (status_in in_flight) (Dict.map_values (interrupt_if now) rows) ≡ 0
unfolding count_rows Dict.map_values interrupt_if
none_flying now [] = refl
none_flying now ((k, r) ∷ rows) = elim (Bool-cases (status_in in_flight r)) [
  | inl live ↦ rw (live, flying_interrupted) (none_flying now rows)
  | inr idle ↦ rw (idle, idle) (none_flying now rows)
]

-- After a restart no job is in flight, the jobs returned are those that no longer count as active,
-- and the row of any job is its old one, interrupted exactly where the job was in flight.
pub interrupt_stale_active_jobs_lem :
    (now : ℕ) (d : Disk) (id : String)
    → (count_rows (status_in in_flight) (read_statuses (interrupt_stale_active_jobs now d).1) ≡ 0)
      × (count_active_jobs (interrupt_stale_active_jobs now d).1
            + length (interrupt_stale_active_jobs now d).0
          ≡ count_active_jobs d)
      × (Dict.get (read_statuses (interrupt_stale_active_jobs now d).1) id
          ≡ Option.map
              (λ (r : Row). if status_in in_flight r then interrupted_row now r else r)
              (Dict.get (read_statuses d) id))
unfolding interrupt_stale_active_jobs count_active_jobs
interrupt_stale_active_jobs_lem now d id = (
  none_flying now (read_statuses d),
  rows_split now (read_statuses d),
  unfold interrupt_if in get-map_values (interrupt_if now) (read_statuses d) id,
)
