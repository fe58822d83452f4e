-- ===== src/MeetJobs/Settled.antt =====
-- What the sweep of stale meetings leaves: a second sweep finds nothing.
use tempa.Base.{
  ℕ, String, Bool, true, false, ◌&&◌, ◌||◌, some, List, [], ◌∷◌, ◌++◌, ◌==◌, ◌≡◌, refl, sym, subst,
  ap, arith, inl, inr, Bool-cases, contains,
}
use tempa.Base.Dict
use tempa.Base.Dict.{Dict, get-put, get-put_self}
use tempa.Base.Value.{Row, is_text, str_or, text}
use tempa.Disk.{Disk, read_statuses, read_queue, write_statuses, write_queue}
use tempa.MeetJobs.{parse_queue_lines}
use tempa.MeetJobs.Recover.{
  Sweep, is_stale, is_left, fate, Fate, left, failed, interrupted, requeued, interrupted_row,
  with_error, Swept, add_fate, sweep_rows, write_swept, recover_stale_running_jobs, queued_urls,
}

-- The sweep would leave each of the rows.
abbrev IsSettled : Sweep → Dict Row → Type 0
IsSettled s [] = Unit
IsSettled s ((job_id, r) ∷ rows) = (is_left s job_id r ≡ true) × IsSettled s rows

stale_text :
    (on_startup : Bool) (status : String) (r : Row)
    → Dict.get r "status" ≡ some (text status)
    → is_stale on_startup r ≡ (
        status == "running"
        || status == "finalizing"
        || (on_startup && status == "waiting_to_record"))
unfolding is_stale
stale_text on_startup status r e = rw e

text_left :
    (s : Sweep) (job_id status : String) (r : Row)
    → Dict.get r "status" ≡ some (text status)
    → (status == "running"
        || status == "finalizing"
        || (s.on_startup && status == "waiting_to_record"))
      ≡ false
    → is_left s job_id r ≡ true
unfolding is_left
text_left s job_id status r e idle = rw (stale_text s.on_startup status r e, idle)

status-with_error :
    (status error : String) (r : Row)
    → Dict.get (with_error status error r) "status" ≡ some (text status)
status-with_error status error r = rw (get-put, get-put_self)

never_idle : (b : Bool) → (b && false) ≡ false
never_idle true = refl
never_idle false = refl

failed_left :
    (s : Sweep) (job_id error : String) (r : Row)
    → is_left s job_id (with_error "failed" error r) ≡ true
failed_left s job_id error r =
    text_left s job_id "failed" (with_error "failed" error r) (status-with_error "failed" error r)
      (never_idle s.on_startup)

interrupted_status : (r : Row) → Dict.get (interrupted_row r) "status" ≡ some (text "interrupted")
unfolding interrupted_row
interrupted_status r = rw (get-put, get-put, get-put_self)

interrupted_left :
    (s : Sweep) (job_id : String) (r : Row) → is_left s job_id (interrupted_row r) ≡ true
interrupted_left s job_id r =
    text_left s job_id "interrupted" (interrupted_row r) (interrupted_status r)
      (never_idle s.on_startup)

requeued_left :
    (s : Sweep) (job_id : String) (r : Row)
    → is_left s job_id (Dict.put r "status" (text "queued")) ≡ true
requeued_left s job_id r =
    text_left s job_id "queued" (Dict.put r "status" (text "queued"))
      (get-put_self r "status" (text "queued")) (never_idle s.on_startup)

-- The row that a fate leaves.
abbrev fate_row : Row → Fate → Row
fate_row r left = r
fate_row r (failed r') = r'
fate_row r (interrupted r') = r'
fate_row r (requeued r') = r'

fate_settles :
    (s : Sweep) (urls : List String) (job_id : String) (r : Row)
    → is_left s job_id (fate_row r (fate s urls job_id r)) ≡ true
unfolding fate
fate_settles s urls job_id r = elim (Bool-cases (is_left s job_id r)) [
  | inl kept ↦ rw (kept, kept)
  | inr stale ↦ elim (Bool-cases (str_or (Dict.get r "meet_url") == "")) [
    | inl blank ↦ rw (stale, blank) (failed_left s job_id "missing meet_url" r)
    | inr url ↦ elim (Bool-cases (contains urls (str_or (Dict.get r "meet_url")))) [
      | inl queued ↦
          rw (stale, url, queued) (failed_left s job_id "superseded by newer queued job" r)
      | inr free ↦ elim (Bool-cases (s.on_startup || is_text (Dict.get r "status") "finalizing")) [
        | inl broken ↦ rw (stale, url, free, broken) (interrupted_left s job_id r)
        | inr going ↦ rw (stale, url, free, going) (requeued_left s job_id r)
      ]
    ]
  ]
]

rows-add_fate :
    (now : ℕ) (job_id : String) (r : Row) (f : Fate) (w : Swept)
    → (add_fate now job_id r f w).rows ≡ (job_id, fate_row r f) ∷ w.rows
rows-add_fate now job_id r left w = refl
rows-add_fate now job_id r (failed r') w = refl
rows-add_fate now job_id r (interrupted r') w = refl
rows-add_fate now job_id r (requeued r') w = refl

sweep_rows-IsSettled :
    (s : Sweep) (urls : List String) (rows : Dict Row) → IsSettled s (sweep_rows s urls rows).rows
unfolding sweep_rows
sweep_rows-IsSettled s urls [] = tt
sweep_rows-IsSettled s urls ((job_id, r) ∷ rows) =
    subst (IsSettled s)
      (sym (rows-add_fate s.now job_id r (fate s urls job_id r) (sweep_rows s urls rows)))
      (fate_settles s urls job_id r, sweep_rows-IsSettled s urls rows)

-- A loop that changed nothing.
abbrev idle_sweep : Dict Row → Swept
idle_sweep rows = record { rows = rows; added = []; recovered = 0; changed = false }

settled_sweep :
    (s : Sweep) (urls : List String) (rows : Dict Row)
    → IsSettled s rows
    → sweep_rows s urls rows ≡ idle_sweep rows
unfolding sweep_rows fate
settled_sweep s urls [] h = refl
settled_sweep s urls ((job_id, r) ∷ rows) h =
    rw (h.0) (ap (add_fate s.now job_id r left) (settled_sweep s urls rows h.1))

add_fate_idle :
    (now : ℕ) (job_id : String) (r : Row) (rows : Dict Row) (f : Fate) (w : Swept)
    → (w.changed ≡ false → w ≡ idle_sweep rows)
    → (add_fate now job_id r f w).changed ≡ false
    → add_fate now job_id r f w ≡ idle_sweep ((job_id, r) ∷ rows)
add_fate_idle now job_id r rows left w rest h = ap (add_fate now job_id r left) (rest h)
add_fate_idle now job_id r rows (failed r') w rest h = ground arith
add_fate_idle now job_id r rows (interrupted r') w rest h = ground arith
add_fate_idle now job_id r rows (requeued r') w rest h = ground arith

unchanged_sweep :
    (s : Sweep) (urls : List String) (rows : Dict Row)
    → (sweep_rows s urls rows).changed ≡ false
    → sweep_rows s urls rows ≡ idle_sweep rows
unfolding sweep_rows
unchanged_sweep s urls [] h = refl
unchanged_sweep s urls ((job_id, r) ∷ rows) h =
    add_fate_idle s.now job_id r rows (fate s urls job_id r) (sweep_rows s urls rows)
      (unchanged_sweep s urls rows) h

recover_idle :
    (s : Sweep) (d : Disk)
    → ((urls : List String) → sweep_rows s urls (read_statuses d) ≡ idle_sweep (read_statuses d))
    → recover_stale_running_jobs s d ≡ (0, d)
unfolding recover_stale_running_jobs write_swept
recover_idle s d h = rw (h (queued_urls (parse_queue_lines (read_queue d))))

swept_again :
    (s : Sweep) (urls : List String) (d : Disk)
    → recover_stale_running_jobs s (write_swept (sweep_rows s urls (read_statuses d)) d)
      ≡ (0, write_swept (sweep_rows s urls (read_statuses d)) d)
unfolding write_swept
swept_again s urls d =
    let w = sweep_rows s urls (read_statuses d) in
    let settled = sweep_rows-IsSettled s urls (read_statuses d) in
    elim (Bool-cases w.changed) [
      | inl changed ↦ rw changed (
          recover_idle s (write_statuses w.rows (write_queue (read_queue d ++ w.added) d))
            (λ urls'. settled_sweep s urls' w.rows settled))
      | inr same ↦ rw same (
          recover_idle s d (λ urls'. settled_sweep s urls' (read_statuses d) (
            subst (λ (v : Swept). IsSettled s v.rows)
              (unchanged_sweep s urls (read_statuses d) same) settled)))
    ]

-- A second sweep recovers no meeting and leaves the disk as the first one left it.
pub recover_stale_running_jobs_again :
    (s : Sweep) (d : Disk)
    → recover_stale_running_jobs s (recover_stale_running_jobs s d).1
      ≡ (0, (recover_stale_running_jobs s d).1)
unfolding recover_stale_running_jobs
recover_stale_running_jobs_again s d =
    swept_again s (queued_urls (parse_queue_lines (read_queue d))) d
