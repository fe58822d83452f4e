-- ===== src/QaJobs/Restart.antt =====
-- `recover_stale_running_jobs` of qa/job_store.py.
use tempa.Base.{
  ℕ, suc, true, false, ◌≡◌, refl, sym, ◌∙◌, ap, some, List, [], ◌∷◌, ◌++◌, length, if◌then◌else◌,
  arith, inl, inr, Bool-cases,
}
use tempa.Base.Dict
use tempa.Base.Dict.{Dict, dict_laws, get-map_values, get-pop, get-put}
use tempa.Base.Value.{Row, text}
use tempa.Disk.{Disk, read_statuses, read_queue}
use tempa.QaJobs.{
  is_running, fresh_row, requeue_row, orphans, lines_of_rows, orphan_lines, write_orphans,
  recover_stale_running_jobs,
}

pub count_running : Dict Row → ℕ
count_running [] = 0
count_running ((k, r) ∷ rows) =
    let rest = count_running rows in if is_running r then suc rest else rest

status-fresh_row : (now : ℕ) (r : Row) → Dict.get (fresh_row now r) "status" ≡ some (text "queued")
unfolding fresh_row
status-fresh_row now r = simp dict_laws

running-fresh_row : (now : ℕ) (r : Row) → is_running (fresh_row now r) ≡ false
unfolding is_running
running-fresh_row now r = rw status-fresh_row

requeued_none :
    (now : ℕ) (rows : Dict Row) → count_running (Dict.map_values (requeue_row now) rows) ≡ 0
unfolding count_running requeue_row Dict.map_values
requeued_none now [] = refl
requeued_none now ((k, r) ∷ rows) = elim (Bool-cases (is_running r)) [
  | inl live ↦ rw (live, running-fresh_row) (requeued_none now rows)
  | inr idle ↦ rw (idle, idle) (requeued_none now rows)
]

length-orphans : (now : ℕ) (rows : Dict Row) → length (orphans now rows) ≡ count_running rows
unfolding count_running orphans
length-orphans now [] = refl
length-orphans now ((k, r) ∷ rows) = ground (arith, length-orphans now rows)

-- Whether or not there are orphans, the disk is as if all of them had been written.
write_orphans_lem :
    (now : ℕ) (d : Disk) (rows : List Row)
    → orphans now (read_statuses d) ≡ rows
    → (count_running (read_statuses (write_orphans rows now d)) ≡ 0)
      × (read_queue (write_orphans rows now d) ≡ lines_of_rows rows ++ read_queue d)
write_orphans_lem now d [] h = (sym (length-orphans now (read_statuses d)) ∙ ap length h, refl)
write_orphans_lem now d (row ∷ rows) h = (requeued_none now (read_statuses d), refl)

-- On startup the jobs that were left running are counted, none is running afterwards, and their
-- lines stand in front of the queue as it was.
pub recover_stale_running_jobs_lem :
    (now : ℕ) (d : Disk)
    → (let (recovered, d') = recover_stale_running_jobs true now d in
        (recovered ≡ count_running (read_statuses d))
        × (count_running (read_statuses d') ≡ 0)
        × (read_queue d' ≡ orphan_lines now (read_statuses d) ++ read_queue d))
unfolding recover_stale_running_jobs orphan_lines
recover_stale_running_jobs_lem now d =
    let (none_left, queue) = write_orphans_lem now d (orphans now (read_statuses d)) refl in
    (length-orphans now (read_statuses d), none_left, queue)
