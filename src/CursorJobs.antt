-- ===== src/CursorJobs.antt =====
-- The durable store of Cursor jobs: channels/slack/cursor_jobs.py of src/tempa. Every function takes
-- the disk, and the time of its call where it reads the clock.
mod Examples
pub mod Claim
pub mod Participants
pub mod Restart
use Prim.Native.String.{◌++◌ as append}
use Prim.Native.Nat.{max}
use tempa.Base.{
  ℕ, zero, suc, ◌*◌, String, Bool, true, false, not, ◌&&◌, ◌||◌, Option, none, some, List, [], ◌∷◌,
  ◌++◌, contains, select, length, take, map, ◌==◌, if◌then◌else◌,
}
use tempa.Base.Text.{strip}
use tempa.Base.Dict
use tempa.Base.Dict.{Dict}
use tempa.Base.Value.{
  Value, Row, truthy, str_or, is_text, first_truthy, null, num, text, time, texts,
}
use tempa.Base.Sort.{sort_desc}
use tempa.Disk.Lines.{written_lines}
use tempa.Disk.{
  Line, row, malformed, Disk, read_statuses, write_statuses, read_queue, write_queue, stamp_key,
}

abbrev pub active_statuses : List String
active_statuses = "queued" ∷ "running" ∷ "waiting_ci" ∷ "fixing_ci" ∷ "running_tests" ∷ []

unfoldable pub status_in : List String → Row → Bool
status_in names r = contains names (str_or (Dict.get r "status"))

unfoldable pub pr_key : (channel_id thread_ts user_id repo : String) → String
pr_key channel_id thread_ts user_id repo =
    append repo
      (append "|" (append channel_id (append "|" (append thread_ts (append "|" user_id)))))

-- `[str(u).strip() for u in us if str(u).strip()]`
unfoldable pub stripped : List String → List String
stripped [] = []
stripped (u ∷ us) = let rest = stripped us in if strip u == "" then rest else strip u ∷ rest

abbrev pub ids_of : Option Value → List String
ids_of (some (texts us)) = us
ids_of _ = []

-- `[starter, *[u for u in us if u != starter]]`
unfoldable pub lead : String → List String → List String
lead starter us = starter ∷ select (λ u. not (u == starter)) us

unfoldable pub seed_participants : Row → List String
unfolding stripped lead
seed_participants fields =
    let starter = strip (str_or (Dict.get fields "user_id")) in
    let us = stripped (ids_of (Dict.get fields "participant_ids")) in
    if not (starter == "") && not (contains us starter) then lead starter us else us

unfoldable pub new_row : String → Row → ℕ → Row
unfolding seed_participants
new_row job_id fields now =
    Dict.put
      (Dict.update
        (("id", text job_id)
          ∷ ("status", text "queued")
          ∷ ("enqueued_at", time now)
          ∷ ("updated_at", time now)
          ∷ ("ci_fix_count", num 0)
          ∷ ("phase", text "queued")
          ∷ [])
        fields)
      "participant_ids" (texts (seed_participants fields))

-- `enqueue_cursor_job`, with the identifier that `uuid4` gave.
unfoldable pub enqueue_cursor_job : String → Row → ℕ → Disk → Disk
unfolding new_row
enqueue_cursor_job job_id fields now d =
    let r = new_row job_id fields now in
    write_queue (read_queue d ++ written_lines r)
      (write_statuses (Dict.put (read_statuses d) job_id r) d)

unfoldable pub count_rows : (Row → Bool) → Dict Row → ℕ
count_rows p [] = 0
count_rows p ((k, r) ∷ rows) = let rest = count_rows p rows in if p r then suc rest else rest

unfoldable pub count_active_jobs : Disk → ℕ
unfolding count_rows
count_active_jobs d = count_rows (status_in active_statuses) (read_statuses d)

-- `statuses.get(job_id) or job`
abbrev pub or_row : Option Row → Row → Row
or_row none job = job
or_row (some []) job = job
or_row (some (e ∷ es)) job = e ∷ es

unfoldable pub claimed_row : ℕ → Row → Row
claimed_row now current =
    Dict.put
      (Dict.put (Dict.put (Dict.put current "status" (text "running")) "started_at" (time now))
        "updated_at" (time now))
      "phase" (text "running")

abbrev pub put_unless_blank : Dict Row → String → Row → Dict Row
put_unless_blank rows id r = if id == "" then rows else Dict.put rows id r

abbrev pub job_id : Row → String
job_id job = str_or (Dict.get job "id")

abbrev pub current_row : Dict Row → Row → Row
current_row rows job = or_row (Dict.get rows (job_id job)) job

unfoldable pub is_queued : Row → Bool
is_queued r = str_or (Dict.get r "status") == "queued"

abbrev pub claim_row : ℕ → Dict Row → Row → Dict Row
claim_row now rows job = put_unless_blank rows (job_id job) (claimed_row now (current_row rows job))

abbrev pub with_job : Row → List Row × List Line × Dict Row → List Row × List Line × Dict Row
with_job job c = (job ∷ c.0, c.1, c.2)

-- The loop of `claim_next_jobs`, with the room that is left under the limit: the jobs claimed, the
-- lines kept, and the statuses.
unfoldable pub claim_lines : ℕ → (room : ℕ) → List Line → Dict Row → List Row × List Line × Dict Row
claim_lines now room [] rows = ([], [], rows)
claim_lines now zero (line ∷ lines) rows = ([], line ∷ lines, rows)
claim_lines now (suc room) (malformed ∷ lines) rows = claim_lines now (suc room) lines rows
claim_lines now (suc room) (row job ∷ lines) rows =
    let claimed =
      with_job (claimed_row now (current_row rows job))
        (claim_lines now room lines (claim_row now rows job)) in
    let skipped = claim_lines now (suc room) lines rows in
    if is_queued (current_row rows job) then claimed else skipped

-- A limit below one, a missing queue and an empty one claim nothing and write nothing.
unfoldable pub claim_from : ℕ → ℕ → Disk → List Line → List Row × Disk
claim_from limit now d [] = ([], d)
claim_from limit now d (line ∷ lines) =
    let (jobs, keep, rows) = claim_lines now limit (line ∷ lines) (read_statuses d) in
    (jobs, write_statuses rows (write_queue keep d))

unfoldable pub claim_next_jobs : (limit : ℕ) → ℕ → Disk → List Row × Disk
unfolding claim_from
claim_next_jobs zero now d = ([], d)
claim_next_jobs (suc n) now d = claim_from (suc n) now d (read_queue d)

unfoldable pub update_job : String → Row → ℕ → Disk → Row × Disk
update_job job_id fields now d =
    let old = or_row (Dict.get (read_statuses d) job_id) (("id", text job_id) ∷ []) in
    let r = Dict.put (Dict.update old fields) "updated_at" (time now) in
    let r' =
      if is_text (Dict.get fields "status") "completed"
      then Dict.put r "completed_at" (time now)
      else r in
    (r', write_statuses (Dict.put (read_statuses d) job_id r') d)

unfoldable pub get_job : String → Disk → Option Row
get_job job_id d = Dict.get (read_statuses d) job_id

abbrev pub recency : Row → ℕ
recency r = stamp_key (first_truthy (Dict.get r "updated_at") (Dict.get r "enqueued_at"))

unfoldable pub list_jobs : ℕ → Disk → List Row
list_jobs limit d = take (max 1 limit) (sort_desc recency (Dict.values (read_statuses d)))

abbrev pub or_null : Option Value → Value
or_null none = null
or_null (some v) = v

abbrev pub first : List Row → Option Row
first [] = none
first (r ∷ rs) = some r

abbrev pub has_binding : String → Row → Bool
has_binding key r =
    is_text (Dict.get r "pr_key") key
    && (truthy (or_null (Dict.get r "pr_url")) || truthy (or_null (Dict.get r "branch")))

unfoldable pub find_pr_binding : (channel_id thread_ts user_id repo : String) → Disk → Option Row
unfolding pr_key
find_pr_binding channel_id thread_ts user_id repo d = first (
    sort_desc (λ r. stamp_key (Dict.get r "updated_at"))
      (select (has_binding (pr_key channel_id thread_ts user_id repo))
        (Dict.values (read_statuses d))))

abbrev pub in_thread : String → String → Row → Bool
in_thread ch ts r = str_or (Dict.get r "channel_id") == ch && str_or (Dict.get r "thread_ts") == ts

unfoldable pub find_jobs_for_thread : String → String → ℕ → Disk → List Row
unfolding list_jobs
find_jobs_for_thread channel_id thread_ts limit d =
    let ch = strip channel_id in
    let ts = strip thread_ts in
    if ch == "" || ts == ""
    then []
    else take (max 1 limit) (select (in_thread ch ts) (list_jobs (max (limit * 4) 80) d))

unfoldable pub thread_has_cursor_job : String → String → Disk → Bool
unfolding find_jobs_for_thread
thread_has_cursor_job channel_id thread_ts d =
    elim (find_jobs_for_thread channel_id thread_ts 1 d) [ [] ↦ false | r ∷ rs ↦ true ]
