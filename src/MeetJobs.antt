-- ===== src/MeetJobs.antt =====
-- The queue of meetings to join: meet/job_store.py of src/tempa, and the statuses of meet/quality.py.
-- Every function takes the disk, and the time of its call where it reads the clock. Instants count
-- from `datetime.min`. A line of the queue that is JSON but no object counts as malformed here.
mod Examples
pub mod Coverage
pub mod Enqueue
pub mod Finished
pub mod Recover
pub mod Settled
pub mod Claim
use tempa.Base.{
  ℕ, String, Bool, true, false, ◌&&◌, ◌||◌, Option, none, some, List, [], ◌∷◌, ◌++◌, ◌==◌,
  if◌then◌else◌, leb,
}
use tempa.Base.Dict
use tempa.Base.Dict.{Dict}
use tempa.Base.Value.{Value, Row, is_text, instant, first_truthy, null, text, time}
use tempa.Disk.Lines.{written_lines}
use tempa.Disk.{Line, row, malformed, Disk, read_statuses, write_statuses, read_queue, write_queue}

-- `row.get("status") in ACTIVE_JOB_STATUSES`
unfoldable pub is_active : Row → Bool
is_active r =
    let status = Dict.get r "status" in
    is_text status "queued"
    || is_text status "running"
    || is_text status "finalizing"
    || is_text status "interrupted"

unfoldable pub is_at : String → Row → Bool
is_at meet_url r = is_text (Dict.get r "meet_url") meet_url

abbrev pub active_job_from : String → Dict Row → Option String
active_job_from meet_url [] = none
active_job_from meet_url ((job_id, r) ∷ rows) =
    let rest = active_job_from meet_url rows in
    if is_at meet_url r && is_active r then some job_id else rest

unfoldable pub active_job_for_url : String → Dict Row → Option String
active_job_for_url meet_url rows = if meet_url == "" then none else active_job_from meet_url rows

abbrev is_some : Option String → Bool
is_some none = false
is_some (some id) = true

unfoldable pub has_active_job_for_url : String → Disk → Bool
unfolding active_job_for_url
has_active_job_for_url meet_url d = is_some (active_job_for_url meet_url (read_statuses d))

-- The instant of `started_at` or else of `enqueued_at`, where it is one.
unfoldable pub stamp : Row → Option ℕ
stamp r = instant (first_truthy (Dict.get r "started_at") (Dict.get r "enqueued_at"))

abbrev or_min : Option ℕ → ℕ
or_min none = 0
or_min (some t) = t

-- That instant, or else `datetime.min`.
unfoldable pub moment : Row → ℕ
unfolding stamp
moment r = or_min (stamp r)

abbrev pub later_of : Option (String × Row) → String × Row → String × Row
later_of none job = job
later_of (some best) job = if leb (moment best.1) (moment job.1) then job else best

unfoldable pub latest_from : String → Dict Row → Option (String × Row) → Option (String × Row)
latest_from meet_url [] best = best
latest_from meet_url ((job_id, r) ∷ rows) best =
    let here = latest_from meet_url rows (some (later_of best (job_id, r))) in
    let elsewhere = latest_from meet_url rows best in if is_at meet_url r then here else elsewhere

unfoldable pub latest_job_for_url : String → Disk → Option (String × Row)
unfolding latest_from
latest_job_for_url meet_url d =
    if meet_url == "" then none else latest_from meet_url (read_statuses d) none

abbrev pub interrupted_ids : Dict Row → List String
interrupted_ids [] = []
interrupted_ids ((job_id, r) ∷ rows) =
    let rest = interrupted_ids rows in
    if is_text (Dict.get r "status") "interrupted" then job_id ∷ rest else rest

unfoldable pub list_interrupted_job_ids : Disk → List String
list_interrupted_job_ids d = interrupted_ids (read_statuses d)

-- The arguments of `enqueue_meet_job`.
pub record Meeting : Type 0 where
  pub meet_url : String
  pub title : String
  pub meeting_id : Option String
  pub notify_number : Option String
  pub extra : Row

abbrev text_or_null : Option String → Value
text_or_null none = null
text_or_null (some s) = text s

-- `meeting_id or str(uuid.uuid4())`
abbrev pub chosen_id : Option String → (uuid : String) → String
chosen_id none uuid = uuid
chosen_id (some id) uuid = if id == "" then uuid else id

unfoldable pub queue_row : String → Meeting → ℕ → Row
queue_row mid m now =
    Dict.update
      (("id", text mid)
        ∷ ("meet_url", text m.meet_url)
        ∷ ("title", text m.title)
        ∷ ("notify_number", text_or_null m.notify_number)
        ∷ ("enqueued_at", time now)
        ∷ ("status", text "queued")
        ∷ [])
      m.extra

unfoldable pub status_row : Meeting → Row
status_row m =
    Dict.update
      (("status", text "queued") ∷ ("meet_url", text m.meet_url) ∷ ("title", text m.title) ∷ [])
      m.extra

abbrev pub add_job : String → Meeting → ℕ → Disk → String × Disk
add_job mid m now d = (
  mid,
  write_statuses (Dict.put (read_statuses d) mid (status_row m))
      (write_queue (read_queue d ++ written_lines (queue_row mid m now)) d),
)

-- `if existing: return existing`, and the rest of `enqueue_meet_job`.
unfoldable pub enqueue_unless : Option String → String → Meeting → ℕ → Disk → String × Disk
enqueue_unless none mid m now d = add_job mid m now d
enqueue_unless (some existing) mid m now d =
    if existing == "" then add_job mid m now d else (existing, d)

unfoldable pub enqueue_meet_job : (uuid : String) → Meeting → ℕ → Disk → String × Disk
unfolding enqueue_unless
enqueue_meet_job uuid m now d =
    enqueue_unless (active_job_for_url m.meet_url (read_statuses d)) (chosen_id m.meeting_id uuid) m
      now d

unfoldable pub parse_queue_lines : List Line → List Row
parse_queue_lines [] = []
parse_queue_lines (malformed ∷ lines) = parse_queue_lines lines
parse_queue_lines (row r ∷ lines) = r ∷ parse_queue_lines lines

-- `fail_running_job` of the row that was found; an empty row counts as none.
unfoldable pub fail_found : String → String → Dict Row → Disk → Option Row → Disk
fail_found id error rows d none = d
fail_found id error rows d (some r) =
    if is_text (Dict.get r "status") "running"
    then write_statuses
        (Dict.put rows id (Dict.put (Dict.put r "status" (text "failed")) "error" (text error))) d
    else d

unfoldable pub fail_running_job : String → (error : String) → Disk → Disk
unfolding fail_found
fail_running_job id error d =
    fail_found id error (read_statuses d) d (Dict.get (read_statuses d) id)

abbrev or_empty : Option Row → Row
or_empty none = []
or_empty (some r) = r

unfoldable pub update_job_status : String → (fields : Row) → Disk → Disk
update_job_status id fields d =
    write_statuses
      (Dict.put (read_statuses d) id
        (Dict.update (or_empty (Dict.get (read_statuses d) id)) fields))
      d
