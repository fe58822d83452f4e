-- ===== src/MeetJobs/Recover.antt =====
-- `recover_stale_running_jobs` of meet/job_store.py: what becomes of the meetings that a worker left
-- in flight.
use tempa.Base.{
  ℕ, suc, String, Bool, true, false, not, ◌&&◌, ◌||◌, Option, none, some, List, [], ◌∷◌, ◌++◌, ◌==◌,
  ◌+◌, ◌*◌, if◌then◌else◌, ltb, contains,
}
use tempa.Base.Dict
use tempa.Base.Dict.{Dict}
use tempa.Base.Value.{Value, Row, is_text, str_or, null, text, time}
use tempa.Disk.Lines.{written_lines}
use tempa.Disk.{Line, Disk, read_statuses, write_statuses, read_queue, write_queue}
use tempa.MeetJobs.{stamp, parse_queue_lines}

-- The arguments of the call, and its time.
pub record Sweep : Type 0 where
  pub on_startup : Bool
  pub max_age_minutes : ℕ
  pub active_meeting_ids : List String
  pub now : ℕ

-- `row.get("status") in stale_statuses`
unfoldable pub is_stale : (on_startup : Bool) → Row → Bool
is_stale on_startup r =
    let status = Dict.get r "status" in
    is_text status "running"
    || is_text status "finalizing"
    || (on_startup && is_text status "waiting_to_record")

abbrev younger : ℕ → (minutes : ℕ) → Option ℕ → Bool
younger now minutes none = false
younger now minutes (some started) = ltb now (started + minutes * 60_000_000)

-- A row that the loop leaves with `continue` before it changes anything.
unfoldable pub is_left : Sweep → String → Row → Bool
unfolding is_stale
is_left s job_id r =
    not (is_stale s.on_startup r)
    || contains s.active_meeting_ids job_id
    || (not s.on_startup && younger s.now s.max_age_minutes (stamp r))

abbrev pub queued_urls : List Row → List String
queued_urls [] = []
queued_urls (r ∷ rows) =
    let rest = queued_urls rows in
    if is_text (Dict.get r "status") "queued" then str_or (Dict.get r "meet_url") ∷ rest else rest

abbrev pub with_error : (status error : String) → Row → Row
with_error status error r = Dict.put (Dict.put r "status" (text status)) "error" (text error)

abbrev value_or : Option Value → Value → Value
value_or none v = v
value_or (some w) v = w

-- `if row.get(field) is not None: requeue[field] = row[field]`
abbrev copy_field : Row → String → Option Value → Row
copy_field to field none = to
copy_field to field (some null) = to
copy_field to field (some v) = Dict.put to field v

abbrev copy_fields : Row → Row → List String → Row
copy_fields to r [] = to
copy_fields to r (field ∷ fields) = copy_fields (copy_field to field (Dict.get r field)) r fields

unfoldable pub requeue_row : ℕ → String → Row → Row
requeue_row now job_id r =
    copy_fields
      (("id", text job_id)
        ∷ ("meet_url", text (str_or (Dict.get r "meet_url")))
        ∷ ("title", value_or (Dict.get r "title") (text ""))
        ∷ ("notify_number", value_or (Dict.get r "notify_number") null)
        ∷ ("enqueued_at", time now)
        ∷ ("status", text "queued")
        ∷ [])
      r
      ("calendar_event_id" ∷ "calendar_event_start" ∷ "calendar_event_end" ∷ "attendee_emails"
        ∷ "organizer_email" ∷ "duration_seconds" ∷ "av_test_youtube_url" ∷ [])

-- What the loop does with a row.
pub data Fate : Type 0 where
  left : Fate
  failed : Row → Fate
  interrupted : Row → Fate
  requeued : Row → Fate

unfoldable pub interrupted_row : Row → Row
interrupted_row r =
    Dict.put
      (with_error "interrupted"
        (if is_text (Dict.get r "status") "finalizing"
          then "finalization interrupted by worker restart"
          else "worker session interrupted")
        r)
      "leave_reason" (text "worker_interrupted")

unfoldable pub fate : Sweep → (urls : List String) → String → Row → Fate
unfolding interrupted_row
fate s urls job_id r =
    let meet_url = str_or (Dict.get r "meet_url") in
    if is_left s job_id r
    then left
    else if meet_url == ""
    then failed (with_error "failed" "missing meet_url" r)
    else if contains urls meet_url
    then failed (with_error "failed" "superseded by newer queued job" r)
    else if s.on_startup || is_text (Dict.get r "status") "finalizing"
    then interrupted (interrupted_row r)
    else requeued (Dict.put r "status" (text "queued"))

-- The rows after the loop, the lines that it adds to the queue, the number of jobs recovered, and
-- whether anything changed.
pub record Swept : Type 0 where
  pub rows : Dict Row
  pub added : List Line
  pub recovered : ℕ
  pub changed : Bool

abbrev pub add_fate : ℕ → String → Row → Fate → Swept → Swept
add_fate now job_id r left w = record w { rows = (job_id, r) ∷ w.rows }
add_fate now job_id r (failed r') w = record w { rows = (job_id, r') ∷ w.rows; changed = true }
add_fate now job_id r (interrupted r') w = record w {
  rows = (job_id, r') ∷ w.rows;
  recovered = suc w.recovered;
  changed = true;
}
add_fate now job_id r (requeued r') w = record {
  rows = (job_id, r') ∷ w.rows;
  added = written_lines (requeue_row now job_id r) ++ w.added;
  recovered = suc w.recovered;
  changed = true;
}

unfoldable pub sweep_rows : Sweep → (urls : List String) → Dict Row → Swept
unfolding fate
sweep_rows s urls [] = record { rows = []; added = []; recovered = 0; changed = false }
sweep_rows s urls ((job_id, r) ∷ rows) =
    add_fate s.now job_id r (fate s urls job_id r) (sweep_rows s urls rows)

unfoldable pub write_swept : Swept → Disk → Disk
write_swept w d =
    if w.changed then write_statuses w.rows (write_queue (read_queue d ++ w.added) d) else d

unfoldable pub recover_stale_running_jobs : Sweep → Disk → ℕ × Disk
unfolding sweep_rows write_swept
recover_stale_running_jobs s d =
    let w = sweep_rows s (queued_urls (parse_queue_lines (read_queue d))) (read_statuses d) in
    (w.recovered, write_swept w d)
