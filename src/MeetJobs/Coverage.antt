-- ===== src/MeetJobs/Coverage.antt =====
-- Whether a calendar event still needs a join: `_jobs_for_event`, `_job_has_speech`,
-- `event_needs_coverage` and `should_retry_calendar_join` of meet/job_store.py.
use tempa.Base.{
  ℕ, String, Bool, true, false, not, ◌&&◌, ◌||◌, Option, none, some, List, [], ◌∷◌, ◌==◌,
  if◌then◌else◌, ltb, leb, any, ◌+◌, ◌*◌,
}
use tempa.Base.Dict
use tempa.Base.Dict.{Dict}
use tempa.Base.Text.{strip, is_positive}
use tempa.Base.Value.{Value, Row, is_text, instant, first_truthy, str_or, flag, num, text}
use tempa.Disk.{Disk, read_statuses}
use tempa.MeetJobs.{is_active, is_at, active_job_for_url, stamp, moment, latest_job_for_url}

-- `(calendar_event_id or "").strip()`
abbrev pub event_key : Option String → String
event_key none = ""
event_key (some id) = strip id

abbrev pub is_for_event : String → (event_id : String) → Row → Bool
is_for_event meet_url event_id r =
    if event_id == ""
    then is_at meet_url r
    else strip (str_or (Dict.get r "calendar_event_id")) == event_id

abbrev pub select_rows : (Row → Bool) → Dict Row → List Row
select_rows p [] = []
select_rows p ((k, r) ∷ rows) = let rest = select_rows p rows in if p r then r ∷ rest else rest

-- The rows; nothing uses the identifiers that the code returns with them.
unfoldable pub jobs_for_event : Dict Row → String → Option String → List Row
jobs_for_event rows meet_url calendar_event_id =
    select_rows (is_for_event meet_url (event_key calendar_event_id)) rows

-- `int(v or 0) > 0`, false where it raises TypeError or ValueError.
abbrev int_positive : Option Value → Bool
int_positive (some (flag b)) = b
int_positive (some (num n)) = ltb 0 n
int_positive (some (text s)) = is_positive false (strip s)
int_positive _ = false

unfoldable pub job_has_speech : Row → Bool
job_has_speech r = int_positive (Dict.get r "segment_count")

unfoldable pub is_covered : Row → Bool
is_covered r =
    let status = Dict.get r "status" in
    is_text status "completed" || is_text status "empty" || job_has_speech r

-- `max` keeps the first of the rows with the greatest key.
abbrev pub latest_row : Row → List Row → Row
latest_row best [] = best
latest_row best (r ∷ rows) = latest_row (if ltb (moment best) (moment r) then r else best) rows

abbrev is_recent : ℕ → (debounce_seconds : ℕ) → Option ℕ → Bool
is_recent now debounce_seconds none = false
is_recent now debounce_seconds (some t) = ltb now (t + debounce_seconds * 1_000_000)

-- What the latest of the rows says, once no row is covered.
unfoldable pub latest_needs : ℕ → (debounce_seconds : ℕ) → Row → Bool
latest_needs now debounce_seconds latest =
    if is_active latest
    then false
    else if is_recent now debounce_seconds (stamp latest)
    then false
    else is_text (Dict.get latest "status") "failed" && not (job_has_speech latest)

unfoldable pub jobs_need : ℕ → (debounce_seconds : ℕ) → List Row → Bool
unfolding is_covered latest_needs
jobs_need now debounce_seconds [] = true
jobs_need now debounce_seconds (r ∷ rows) =
    if any is_covered (r ∷ rows)
    then false
    else latest_needs now debounce_seconds (latest_row r rows)

-- Where no row has the event's identifier, the rows of the URL count.
abbrev pub or_of_url : List Row → List Row → List Row
or_of_url [] rows = rows
or_of_url (r ∷ rows) others = r ∷ rows

abbrev is_truthy : Option String → Bool
is_truthy none = false
is_truthy (some id) = not (id == "")

abbrev is_over : ℕ → Option ℕ → Bool
is_over now none = false
is_over now (some end) = leb end now

-- `event_end` is an instant where the code parses it or gets a datetime.
unfoldable pub event_needs_coverage :
    String → Option String → (event_end : Option Value) → (debounce_seconds : ℕ) → ℕ → Disk → Bool
event_needs_coverage meet_url calendar_event_id event_end debounce_seconds now d =
    let rows = read_statuses d in
    if meet_url == ""
    then false
    else if is_over now (instant event_end)
    then false
    else if is_truthy (active_job_for_url meet_url rows)
    then false
    else jobs_need now debounce_seconds (
        or_of_url (jobs_for_event rows meet_url calendar_event_id)
          (jobs_for_event rows meet_url none))

abbrev latest_fields : Option (String × Row) → Row
latest_fields none = []
latest_fields (some job) = job.1

-- `calendar_event_id or (str(row.get("calendar_event_id") or "") or None)`
abbrev id_or : Option String → String → Option String
id_or none other = some other
id_or (some id) other = if id == "" then some other else some id

unfoldable pub should_retry_calendar_join :
    String → Option String → (event_end : Option Value) → (cooldown_seconds : ℕ) → ℕ → Disk → Bool
should_retry_calendar_join meet_url calendar_event_id event_end cooldown_seconds now d =
    let latest = latest_fields (latest_job_for_url meet_url d) in
    event_needs_coverage meet_url
      (id_or calendar_event_id (str_or (Dict.get latest "calendar_event_id")))
      (first_truthy event_end (Dict.get latest "calendar_event_end")) cooldown_seconds now d
