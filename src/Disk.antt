-- ===== src/Disk.antt =====
-- The two files of a job store: a JSON object of rows by job, and a queue of one JSON line a job.
-- Each of channels/slack/cursor_jobs.py, qa/job_store.py and meet/job_store.py has such a pair.
pub mod Lines
use tempa.Base.{ℕ, suc, Option, none, some, List, []}
use tempa.Base.Dict.{Dict}
use tempa.Base.Value.{Row, Value, time}

-- A line of the queue that is not blank: a row, or a text that `json.loads` refuses.
pub data Line : Type 0 where
  row : Row → Line
  malformed : Line

-- `none` is a file that is missing, or a statuses file that is no JSON object.
pub record Disk : Type 0 where
  pub statuses : Option (Dict Row)
  pub queue : Option (List Line)

abbrev pub rows_of : Option (Dict Row) → Dict Row
rows_of none = []
rows_of (some rows) = rows

abbrev pub lines_of : Option (List Line) → List Line
lines_of none = []
lines_of (some lines) = lines

-- `_read_statuses`
abbrev pub read_statuses : Disk → Dict Row
read_statuses d = rows_of d.statuses

abbrev pub write_statuses : Dict Row → Disk → Disk
write_statuses rows d = record d { statuses = some rows }

abbrev pub read_queue : Disk → List Line
read_queue d = lines_of d.queue

abbrev pub write_queue : List Line → Disk → Disk
write_queue lines d = record d { queue = some lines }

-- The order of time stamps by their texts: a missing or empty one stands below all others.
abbrev pub stamp_key : Option Value → ℕ
stamp_key (some (time t)) = suc t
stamp_key _ = 0
