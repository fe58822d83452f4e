-- ===== src/MeetJobs/Claim.antt =====
-- `_dedupe_queued_jobs` and `claim_next_job` of meet/job_store.py: the newest meeting is claimed, and
-- the other queued jobs of its URL are dropped.
pub mod Newest
pub mod Superseded
pub mod Apart
use tempa.Base.{
  ◌++◌, ℕ, String, Bool, true, false, not, ◌&&◌, Option, none, some, List, [], ◌∷◌, ◌==◌,
  if◌then◌else◌, leb,
}
use tempa.Base.Dict
use tempa.Base.Dict.{Dict}
use tempa.Base.Sort.{sort_desc}
use tempa.Base.Value.{Value, Row, is_text, str, str_or, null, text, time}
use tempa.Disk.Lines.{written_lines}
use tempa.Disk.{Line, row, Disk, read_statuses, write_statuses, read_queue, write_queue, stamp_key}
use tempa.MeetJobs.{parse_queue_lines}

unfoldable pub is_queued : Row → Bool
is_queued r = is_text (Dict.get r "status") "queued"

abbrev pub url_of : Row → String
url_of r = str_or (Dict.get r "meet_url")

abbrev pub id_of : Row → String
id_of r = str_or (Dict.get r "id")

-- `str(row.get("enqueued_at") or "")`, by its order
unfoldable pub age_key : Row → ℕ
age_key r = stamp_key (Dict.get r "enqueued_at")

abbrev pub takes : Option Row → Row → Bool
takes none r = true
takes (some existing) r = leb (age_key existing) (age_key r)

unfoldable pub is_candidate : Row → Bool
is_candidate r = is_queued r && not (url_of r == "")

unfoldable pub add_newest : Dict Row → Row → Dict Row
add_newest newest r =
    if takes (Dict.get newest (url_of r)) r then Dict.put newest (url_of r) r else newest

-- The dictionary `newest_by_url` after the rows.
unfoldable pub newest_by_url : List Row → Dict Row → Dict Row
unfolding add_newest
newest_by_url [] newest = newest
newest_by_url (r ∷ rows) newest =
    let kept = newest_by_url rows (add_newest newest r) in
    let skipped = newest_by_url rows newest in if is_candidate r then kept else skipped

unfoldable pub dedupe_queued_jobs : List Row → List Row
unfolding newest_by_url
dedupe_queued_jobs rows = sort_desc age_key (Dict.values (newest_by_url rows []))

-- A row that the claim takes out of the queue.
unfoldable pub is_taken : (id url : String) → Row → Bool
is_taken id url r = if id_of r == id then true else is_queued r && url_of r == url

unfoldable pub remaining_lines : (id url : String) → List Row → List Line
unfolding is_taken
remaining_lines id url [] = []
remaining_lines id url (r ∷ rows) =
    let rest = remaining_lines id url rows in
    if is_taken id url r then rest else written_lines r ++ rest

unfoldable pub skipped_row : Row → Row
skipped_row r =
    Dict.put (Dict.put r "status" (text "skipped")) "error" (text "superseded by newer job")

unfoldable pub is_superseded : (id url : String) → String → Row → Bool
is_superseded id url job_id r =
    not (job_id == id) && is_queued r && is_text (Dict.get r "meet_url") url

-- The first loop over the statuses.
unfoldable pub skip_rows : (id url : String) → Dict Row → Dict Row
unfolding is_superseded
skip_rows id url [] = []
skip_rows id url ((job_id, r) ∷ rows) =
    (job_id, (if is_superseded id url job_id r then skipped_row r else r)) ∷ skip_rows id url rows

abbrev value_or : Option Value → Value → Value
value_or none v = v
value_or (some w) v = w

unfoldable pub new_skipped : Row → Row
new_skipped r =
    ("status", text "skipped")
    ∷ ("meet_url", text (url_of r))
    ∷ ("title", value_or (Dict.get r "title") (text ""))
    ∷ ("error", text "superseded by newer job")
    ∷ []

abbrev is_missing : Option Row → Bool
is_missing none = true
is_missing (some r) = false

unfoldable pub adds_skipped : (id url : String) → Dict Row → Row → Bool
adds_skipped id url rows r =
    not (id_of r == "")
    && not (id_of r == id)
    && is_queued r
    && url_of r == url
    && is_missing (Dict.get rows (id_of r))

-- The loop over the lines that adds a row for a job without one.
unfoldable pub skip_lines : (id url : String) → List Row → Dict Row → Dict Row
unfolding adds_skipped new_skipped
skip_lines id url [] rows = rows
skip_lines id url (r ∷ lines) rows =
    let added = skip_lines id url lines (Dict.put rows (id_of r) (new_skipped r)) in
    let same = skip_lines id url lines rows in if adds_skipped id url rows r then added else same

abbrev or_empty : Option Row → Row
or_empty none = []
or_empty (some r) = r

-- `{k: v for k, v in claimed.items() if k not in ("status", "enqueued_at")}`
abbrev own_fields : Row → Row
own_fields r = Dict.pop (Dict.pop r "status") "enqueued_at"

unfoldable pub running_row : ℕ → (prior claimed : Row) → Row
running_row now prior claimed =
    Dict.put
      (Dict.put
        (Dict.put (Dict.put (Dict.update prior (own_fields claimed)) "status" (text "running"))
          "meet_url" (value_or (Dict.get claimed "meet_url") null))
        "title" (value_or (Dict.get claimed "title") (value_or (Dict.get prior "title") (text ""))))
      "started_at" (time now)

unfoldable pub start_row : ℕ → String → Row → Dict Row → Dict Row
unfolding running_row
start_row now id claimed rows =
    Dict.put rows id (running_row now (or_empty (Dict.get rows id)) claimed)

-- What the call comes to: a job, None, or the KeyError of a line without an identifier.
pub data Claim : Type 0 where
  claimed : Row → Claim
  nothing : Claim
  raised : Claim

unfoldable pub claim_job : ℕ → Disk → (job : Row) → (id : Option Value) → Claim × Disk
unfolding remaining_lines skip_rows skip_lines start_row
claim_job now d job none = (raised, d)
claim_job now d job (some v) =
    let id = str v in
    let lines = parse_queue_lines (read_queue d) in
    let rows = skip_lines id (url_of job) lines (skip_rows id (url_of job) (read_statuses d)) in
    (
      claimed job,
      write_statuses (start_row now id job rows)
          (write_queue (remaining_lines id (url_of job) lines) d),
    )

unfoldable pub claim_first : ℕ → Disk → (candidates : List Row) → Claim × Disk
unfolding claim_job
claim_first now d [] = (nothing, d)
claim_first now d (job ∷ candidates) = claim_job now d job (Dict.get job "id")

unfoldable pub claim_next_job : ℕ → Disk → Claim × Disk
unfolding claim_first
claim_next_job now d = claim_first now d (dedupe_queued_jobs (parse_queue_lines (read_queue d)))
