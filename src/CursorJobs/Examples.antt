-- ===== src/CursorJobs/Examples.antt =====
-- Runs of the store of Cursor jobs on small disks.
use mathlib.Core.Option
use tempa.Base.{map, ◌+◌, ◌≡◌, refl, some, [], ◌∷◌, length, if◌then◌else◌, String}
use tempa.Base.Dict
use tempa.Base.Value.{Row, str_or, text}
use tempa.Disk.{row, malformed, Disk, read_statuses, read_queue}
use tempa.Base.Text.{strip}
use tempa.CursorJobs.{
  job_id, claimed_row, stripped, lead, claim_next_jobs, claim_lines, is_queued, count_rows,
  count_active_jobs, status_in,
}
use tempa.CursorJobs.Claim.{Moves, claim_next_jobs-Moves}
use tempa.CursorJobs.Participants.{
  add_thread_participants, join_rows, joined_row, merge_participant_ids, starter_first, same_ids,
}
use tempa.CursorJobs.Participants.Idempotent.{add_thread_participants_again}
use tempa.CursorJobs.Restart.{
  in_flight, interrupted_row, interrupt_stale_active_jobs, interrupt_stale_active_jobs_lem,
}

abbrev job : String → String → Row
job id status =
    ("id", text id)
    ∷ ("status", text status)
    ∷ ("user_id", text "U1")
    ∷ ("channel_id", text "C")
    ∷ ("thread_ts", text "T")
    ∷ []

-- Two jobs that wait, and one whose line is stale.
abbrev disk : Disk
disk = record {
  statuses =
      some (("a", job "a" "queued") ∷ ("b", job "b" "completed") ∷ ("c", job "c" "running") ∷ []);
  queue = some (row (job "b" "queued") ∷ malformed ∷ row (job "a" "queued") ∷ []);
}

claim_next_jobs-Moves_example :
    Moves 9
      (read_queue disk)
      "a"
      (Dict.get (read_statuses disk) "a")
      (Dict.get (read_statuses (claim_next_jobs 2 9 disk).1) "a")
claim_next_jobs-Moves_example = claim_next_jobs-Moves 2 9 disk "a"

add_thread_participants_again_example :
    add_thread_participants "C" "T"
      (" U2 " ∷ "U1" ∷ [])
      8
      (add_thread_participants "C" "T" (" U2 " ∷ "U1" ∷ []) 7 disk).1
    ≡ (0, (add_thread_participants "C" "T" (" U2 " ∷ "U1" ∷ []) 7 disk).1)
add_thread_participants_again_example =
    add_thread_participants_again "C" "T" (" U2 " ∷ "U1" ∷ []) 7 8 disk

interrupt_stale_active_jobs_example :
    (count_rows (status_in in_flight) (read_statuses (interrupt_stale_active_jobs 9 disk).1) ≡ 0)
    × (count_active_jobs (interrupt_stale_active_jobs 9 disk).1
          + length (interrupt_stale_active_jobs 9 disk).0
        ≡ count_active_jobs disk)
    × (Dict.get (read_statuses (interrupt_stale_active_jobs 9 disk).1) "c"
        ≡ Option.map
            (λ (r : Row). if status_in in_flight r then interrupted_row 9 r else r)
            (Dict.get (read_statuses disk) "c"))
interrupt_stale_active_jobs_example = interrupt_stale_active_jobs_lem 9 disk "c"

-- The stale line and the one that does not parse are skipped and taken off the queue.
claims_one : map job_id (claim_next_jobs 2 9 disk).0 ≡ "a" ∷ []
unfolding claim_next_jobs claim_lines is_queued claimed_row str_or Dict.get Dict.put
claims_one = refl

joins_three : (add_thread_participants "C" "T" (" U2 " ∷ "U1" ∷ []) 7 disk).0 ≡ 3
unfolding add_thread_participants join_rows joined_row stripped strip merge_participant_ids
    starter_first same_ids lead str_or Dict.get Dict.put
joins_three = refl
