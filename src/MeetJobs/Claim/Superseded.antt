-- ===== src/MeetJobs/Claim/Superseded.antt =====
-- What a claim does to the statuses of the jobs.
use mathlib.Core.Option
use tempa.Base.{
  ℕ, String, true, false, Option, none, some, List, [], ◌∷◌, ◌==◌, ◌≡◌, refl, subst, arith, inl,
  inr, if◌then◌else◌, Bool-cases, Option-cases, eq_iff, eq_refl,
}
use tempa.Base.Dict
use tempa.Base.Dict.{Dict, get-put, get-put_self}
use tempa.Base.Value.{Value, Row, str}
use tempa.Disk.{Disk, read_statuses, read_queue}
use tempa.MeetJobs.{parse_queue_lines}
use tempa.MeetJobs.Claim.{
  url_of, id_of, is_superseded, skipped_row, skip_rows, adds_skipped, new_skipped, skip_lines,
  start_row, running_row, dedupe_queued_jobs, Claim, claimed, nothing, raised, claim_job,
  claim_first, claim_next_job,
}

-- The first loop sets exactly the superseded rows aside.
get-skip_rows :
    (id url : String) (rows : Dict Row) (k : String)
    → Dict.get (skip_rows id url rows) k
      ≡ Option.map (λ r. if is_superseded id url k r then skipped_row r else r) (Dict.get rows k)
unfolding skip_rows Dict.get
get-skip_rows id url [] k = refl
get-skip_rows id url ((j, r) ∷ rows) k = elim (Bool-cases (j == k)) [
  | inl same ↦ rw (same, (eq_iff j k).0 same)
  | inr apart ↦ rw apart (get-skip_rows id url rows k)
]

adds_skipped-missing :
    (id url : String) (rows : Dict Row) (line : Row)
    → adds_skipped id url rows line ≡ true
    → Dict.get rows (id_of line) ≡ none
unfolding adds_skipped
adds_skipped-missing id url rows line h = elim (Option-cases (Dict.get rows (id_of line))) [
  | inl missing ↦ missing
  | inr (r, found) ↦ ground arith
]

-- The loop over the lines changes no row that is there.
get-skip_lines :
    (id url : String) (lines : List Row) (rows : Dict Row) (k : String) (r : Row)
    → Dict.get rows k ≡ some r
    → Dict.get (skip_lines id url lines rows) k ≡ some r
unfolding skip_lines adds_skipped
get-skip_lines id url [] rows k r h = h
get-skip_lines id url (line ∷ lines) rows k r h =
    elim (Bool-cases (adds_skipped id url rows line)) [
      | inl adds ↦ rw adds (
          get-skip_lines id url lines (Dict.put rows (id_of line) (new_skipped line)) k r (
            rw get-put
              (ground (arith, adds_skipped-missing id url rows line adds, eq_iff (id_of line) k))))
      | inr same ↦ rw same (get-skip_lines id url lines rows k r h)
    ]

-- The identifier of a claimed row, by which the code finds its status.
abbrev claim_id : Option Value → String
claim_id none = ""
claim_id (some v) = str v

-- What becomes of the row of the job `k` when `job` is claimed.
unfoldable pub row_after : ℕ → (job : Row) → String → Row → Row
row_after now job k r =
    let id = claim_id (Dict.get job "id") in
    if k == id
    then running_row now r job
    else if is_superseded id (url_of job) k r
    then skipped_row r
    else r

abbrev pub Effect : ℕ → String → Row → Claim × Disk → Type 0
Effect now k r (claimed job, d) = Dict.get (read_statuses d) k ≡ some (row_after now job k r)
Effect now k r (nothing, d) = Dict.get (read_statuses d) k ≡ some r
Effect now k r (raised, d) = Dict.get (read_statuses d) k ≡ some r

-- The statuses after the two loops, for a job that has a row.
get-skipped :
    (id url k : String) (r : Row) (lines : List Row) (rows : Dict Row)
    → Dict.get rows k ≡ some r
    → Dict.get (skip_lines id url lines (skip_rows id url rows)) k
      ≡ some (if is_superseded id url k r then skipped_row r else r)
get-skipped id url k r lines rows found =
    get-skip_lines id url lines (skip_rows id url rows) k
      (if is_superseded id url k r then skipped_row r else r) (rw (get-skip_rows, found))

is_superseded_self : (id url : String) (r : Row) → is_superseded id url id r ≡ false
unfolding is_superseded
is_superseded_self id url r = rw (eq_refl id)

abbrev statuses_after : ℕ → String → Row → List Row → Dict Row → Dict Row
statuses_after now id job lines rows =
    start_row now id job (skip_lines id (url_of job) lines (skip_rows id (url_of job) rows))

get-start_self :
    (now : ℕ) (id : String) (job r : Row) (lines : List Row) (rows : Dict Row)
    → Dict.get rows id ≡ some r
    → Dict.get (statuses_after now id job lines rows) id ≡ some (running_row now r job)
unfolding start_row
get-start_self now id job r lines rows found = rw (
  get-put_self,
  get-skipped id (url_of job) id r lines rows found,
  is_superseded_self id (url_of job) r,
)

get-start_other :
    (now : ℕ) (id k : String) (job r : Row) (lines : List Row) (rows : Dict Row)
    → (id == k) ≡ false
    → Dict.get rows k ≡ some r
    → Dict.get (statuses_after now id job lines rows) k
      ≡ some (if is_superseded id (url_of job) k r then skipped_row r else r)
unfolding start_row
get-start_other now id k job r lines rows apart found =
    rw (get-put, apart) (get-skipped id (url_of job) k r lines rows found)

get-statuses_after :
    (now : ℕ) (id k : String) (job r : Row) (lines : List Row) (rows : Dict Row)
    → Dict.get rows k ≡ some r
    → Dict.get (statuses_after now id job lines rows) k
      ≡ some (
          if k == id
          then running_row now r job
          else if is_superseded id (url_of job) k r
          then skipped_row r
          else r)
get-statuses_after now id k job r lines rows found = elim (Bool-cases (k == id)) [
  | inl same ↦
      let e = (eq_iff k id).0 same in
      rw (same, e)
        (get-start_self now id job r lines rows (subst (λ j. Dict.get rows j ≡ some r) e found))
  | inr apart ↦
      rw apart
        (get-start_other now id k job r lines rows (ground (arith, eq_iff k id, eq_iff id k)) found)
]

claim_job-Effect :
    (now : ℕ) (d : Disk) (k : String) (r job : Row) (id : Option Value)
    → Dict.get job "id" ≡ id
    → Dict.get (read_statuses d) k ≡ some r
    → Effect now k r (claim_job now d job id)
unfolding claim_job row_after
claim_job-Effect now d k r job none e found = found
claim_job-Effect now d k r job (some v) e found = rw e (
    get-statuses_after now (str v) k job r (parse_queue_lines (read_queue d)) (read_statuses d)
      found)

claim_first-Effect :
    (now : ℕ) (d : Disk) (k : String) (r : Row) (candidates : List Row)
    → Dict.get (read_statuses d) k ≡ some r
    → Effect now k r (claim_first now d candidates)
unfolding claim_first
claim_first-Effect now d k r [] found = found
claim_first-Effect now d k r (job ∷ candidates) found =
    claim_job-Effect now d k r job (Dict.get job "id") refl found

-- Whatever is claimed, the row of each job is known from its old one: the claimed job runs, a job
-- that waits at the same URL is skipped, and every other row is as it was.
pub claim_next_job-Effect :
    (now : ℕ) (d : Disk) (k : String) (r : Row)
    → Dict.get (read_statuses d) k ≡ some r
    → Effect now k r (claim_next_job now d)
unfolding claim_next_job
claim_next_job-Effect now d k r found =
    claim_first-Effect now d k r (dedupe_queued_jobs (parse_queue_lines (read_queue d))) found
