-- ===== src/QaJobs.antt =====
-- The queue of QA scans: qa/job_store.py of src/tempa. Every function takes the disk, and the time of
-- its call where it reads the clock.
mod Examples
pub mod Order
pub mod Restart
pub mod Dropping
use tempa.Base.{
  ℕ, zero, suc, String, Bool, true, false, not, ◌&&◌, ◌||◌, Option, none, some, List, [], ◌∷◌, ◌++◌,
  length, take, ◌==◌, if◌then◌else◌,
}
use tempa.Base.Dict
use tempa.Base.Dict.{Dict}
use tempa.Base.Value.{Value, Row, str_or, is_text, null, flag, num, text, time}
use tempa.Base.Sort.{sort_desc}
use tempa.Disk.{
  Line, row, malformed, Disk, read_statuses, write_statuses, read_queue, write_queue, stamp_key,
}
use tempa.Disk.Lines.{written_lines}

-- The arguments of `enqueue_scan`.
pub record Scan : Type 0 where
  pub repo : String
  pub branch : Option String
  pub job_type : String
  pub pr_number : Option ℕ
  pub installation_id : Option ℕ
  pub priority : Bool
  pub extra : Row

abbrev text_or_null : Option String → Value
text_or_null none = null
text_or_null (some s) = text s

abbrev num_or_null : Option ℕ → Value
num_or_null none = null
num_or_null (some n) = num n

unfoldable pub scan_row : String → Scan → ℕ → Row
scan_row job_id s now =
    Dict.update
      (("id", text job_id)
        ∷ ("repo", text s.repo)
        ∷ ("branch", text_or_null s.branch)
        ∷ ("job_type", text s.job_type)
        ∷ ("pr_number", num_or_null s.pr_number)
        ∷ ("installation_id", num_or_null s.installation_id)
        ∷ ("priority", flag s.priority)
        ∷ ("status", text "queued")
        ∷ ("enqueued_at", time now)
        ∷ [])
      s.extra

abbrev pub place : Bool → (written existing : List Line) → List Line
place true written existing = written ++ existing
place false written existing = existing ++ written

-- `enqueue_scan`, with the identifier that `uuid4` gave. A scan with priority goes to the front.
unfoldable pub enqueue_scan : String → Scan → ℕ → Disk → Disk
enqueue_scan job_id s now d =
    let r = scan_row job_id s now in
    write_queue (place s.priority (written_lines r) (read_queue d))
      (write_statuses (Dict.put (read_statuses d) job_id r) d)

-- What `claim_next_job` comes to: a job, None, or the JSONDecodeError of the first line.
pub data Claim : Type 0 where
  claimed : Row → Claim
  nothing : Claim
  raised : Claim

abbrev pub or_else : Option Row → Row → Row
or_else none r = r
or_else (some r) d = r

abbrev pub job_id : Row → String
job_id job = str_or (Dict.get job "id")

unfoldable pub start_row : ℕ → Dict Row → Row → Dict Row
start_row now rows job =
    if job_id job == ""
    then rows
    else Dict.put rows (job_id job) (
        Dict.put (Dict.put (or_else (Dict.get rows (job_id job)) job) "status" (text "running"))
          "started_at" (time now))

unfoldable pub claim_from : ℕ → Disk → List Line → Claim × Disk
claim_from now d [] = (nothing, d)
claim_from now d (malformed ∷ lines) = (raised, d)
claim_from now d (row job ∷ lines) =
    (claimed job, write_statuses (start_row now (read_statuses d) job) (write_queue lines d))

unfoldable pub claim_next_job : ℕ → Disk → Claim × Disk
unfolding claim_from
claim_next_job now d = claim_from now d (read_queue d)

abbrev put_error : Option String → Row → Row
put_error none r = r
put_error (some e) r = if e == "" then r else Dict.put r "error" (text e)

abbrev put_result : Option Value → Row → Row
put_result none r = r
put_result (some v) r = Dict.put r "result" v

unfoldable pub updated_row : (status : String) → Option String → Option Value → ℕ → Row → Row
updated_row status error result now r =
    let r' =
      put_result result
        (put_error error (Dict.put (Dict.put r "status" (text status)) "updated_at" (time now))) in
    if status == "completed" || status == "failed"
    then Dict.put r' "completed_at" (time now)
    else r'

unfoldable pub update_job_status :
    String → (status : String) → Option String → Option Value → ℕ → Disk → Disk
unfolding updated_row
update_job_status id status error result now d =
    write_statuses
      (Dict.put (read_statuses d) id (
        updated_row status error result now
          (or_else (Dict.get (read_statuses d) id) (("id", text id) ∷ []))))
      d

unfoldable pub is_running : Row → Bool
is_running r = is_text (Dict.get r "status") "running"

unfoldable pub fresh_row : ℕ → Row → Row
fresh_row now r =
    Dict.pop
      (Dict.pop
        (Dict.put (Dict.put (Dict.put r "status" (text "queued")) "updated_at" (time now))
          "reclaimed_at" (time now))
        "started_at")
      "error"

unfoldable pub requeue_row : ℕ → Row → Row
requeue_row now r = if is_running r then fresh_row now r else r

-- The rows that go back to the queue, without the results of the jobs.
unfoldable pub orphans : ℕ → Dict Row → List Row
orphans now [] = []
orphans now ((k, r) ∷ rows) =
    let rest = orphans now rows in
    if is_running r then Dict.pop (fresh_row now r) "result" ∷ rest else rest

abbrev pub lines_of_rows : List Row → List Line
lines_of_rows [] = []
lines_of_rows (r ∷ rows) = written_lines r ++ lines_of_rows rows

unfoldable pub orphan_lines : ℕ → Dict Row → List Line
orphan_lines now rows = lines_of_rows (orphans now rows)

abbrev write_orphans : List Row → ℕ → Disk → Disk
write_orphans [] now d = d
write_orphans (r ∷ rows) now d =
    write_queue (lines_of_rows (r ∷ rows) ++ read_queue d)
      (write_statuses (Dict.map_values (requeue_row now) (read_statuses d)) d)

unfoldable pub recover_stale_running_jobs : (on_startup : Bool) → ℕ → Disk → ℕ × Disk
recover_stale_running_jobs false now d = (0, d)
recover_stale_running_jobs true now d =
    let recovered = orphans now (read_statuses d) in
    (length recovered, write_orphans recovered now d)

unfoldable pub list_jobs : ℕ → Disk → List Row
list_jobs limit d =
    take limit
      (sort_desc (λ r. stamp_key (Dict.get r "enqueued_at")) (Dict.values (read_statuses d)))

unfoldable pub queue_depth : Disk → ℕ
queue_depth d = length (read_queue d)

-- The filters of `drop_queued_jobs`; an empty text is no filter.
pub record Filter : Type 0 where
  pub source_channel : Option String
  pub repo : Option String
  pub job_type : Option String

abbrev passes : Option String → Option Value → Bool
passes none v = true
passes (some s) v = s == "" || str_or v == s

unfoldable pub matches : Filter → Row → Bool
matches f job =
    passes f.source_channel (Dict.get job "source_channel")
    && passes f.repo (Dict.get job "repo")
    && passes f.job_type (Dict.get job "job_type")

unfoldable pub cancel_row : ℕ → Dict Row → Row → Dict Row
cancel_row now rows job =
    if job_id job == ""
    then rows
    else Dict.put rows (job_id job) (
        Dict.put
          (Dict.put
            (Dict.put
              (Dict.put (or_else (Dict.get rows (job_id job)) job) "status" (text "cancelled"))
              "updated_at" (time now))
            "completed_at" (time now))
          "error" (text "dropped from queue"))

abbrev pub count_one : List Line × ℕ × Dict Row → List Line × ℕ × Dict Row
count_one t = (t.0, suc t.1, t.2)

abbrev pub keep_one : Line → List Line × ℕ × Dict Row → List Line × ℕ × Dict Row
keep_one line t = (line ∷ t.0, t.1, t.2)

-- The lines kept, the number dropped, and the statuses. A line that does not parse is left out of
-- the kept ones, and not counted.
unfoldable pub drop_lines : Filter → ℕ → List Line → Dict Row → List Line × ℕ × Dict Row
drop_lines f now [] rows = ([], 0, rows)
drop_lines f now (malformed ∷ lines) rows = drop_lines f now lines rows
drop_lines f now (row job ∷ lines) rows =
    let dropped = count_one (drop_lines f now lines (cancel_row now rows job)) in
    let kept = keep_one (row job) (drop_lines f now lines rows) in
    if matches f job then dropped else kept

abbrev write_dropped : ℕ → Dict Row → Disk → Disk
write_dropped zero rows d = d
write_dropped (suc n) rows d = write_statuses rows d

unfoldable pub drop_from : Filter → ℕ → Disk → Option (List Line) → ℕ × Disk
drop_from f now d none = (0, d)
drop_from f now d (some lines) =
    let (kept, n, rows) = drop_lines f now lines (read_statuses d) in
    (n, write_dropped n rows (write_queue kept d))

unfoldable pub drop_queued_jobs : Filter → ℕ → Disk → ℕ × Disk
unfolding drop_from
drop_queued_jobs f now d = drop_from f now d d.queue
