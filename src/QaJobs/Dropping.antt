-- ===== src/QaJobs/Dropping.antt =====
-- `drop_queued_jobs` of qa/job_store.py.
use tempa.Base.{
  ℕ, zero, suc, String, Bool, false, ◌&&◌, ◌||◌, ◌≡◌, refl, ◌∙◌, Option, none, some, List, [], ◌∷◌,
  ◌==◌, arith, inl, inr, Bool-cases,
}
use tempa.Base.Dict
use tempa.Base.Dict.{Dict, dict_laws, get-put}
use tempa.Base.Value.{Row}
use tempa.Disk.{Line, row, malformed, Disk, lines_of, read_statuses, read_queue}
use tempa.QaJobs.{
  Filter, matches, job_id, cancel_row, drop_lines, drop_from, drop_queued_jobs, write_dropped,
}

unfoldable pub count_malformed : List Line → ℕ
count_malformed [] = 0
count_malformed (malformed ∷ lines) = suc (count_malformed lines)
count_malformed (row job ∷ lines) = count_malformed lines

-- A line of a job that the filter does not match.
abbrev pub IsSpared : Filter → Line → Type 0
IsSpared f malformed = ⊥
IsSpared f (row job) = matches f job ≡ false

-- Some line of the queue is a job of this identifier that the filter matches.
unfoldable pub names : Filter → String → List Line → Bool
names f id [] = false
names f id (malformed ∷ lines) = names f id lines
names f id (row job ∷ lines) = matches f job && job_id job == id || names f id lines

module _ (f : Filter) (now : ℕ) where
  get-cancel_row :
      (rows : Dict Row) (job : Row) (id : String)
      → (job_id job == id) ≡ false
      → Dict.get (cancel_row now rows job) id ≡ Dict.get rows id
  unfolding cancel_row
  get-cancel_row rows job id other = elim (Bool-cases (job_id job == "")) [
    | inl blank ↦ rw blank
    | inr named ↦ rw (named, get-put, other)
  ]

  drop_lines_other :
      (id : String) (lines : List Line) (rows : Dict Row)
      → names f id lines ≡ false
      → Dict.get (drop_lines f now lines rows).2 id ≡ Dict.get rows id
  unfolding drop_lines names
  drop_lines_other id [] rows h = refl
  drop_lines_other id (malformed ∷ lines) rows h = drop_lines_other id lines rows h
  drop_lines_other id (row job ∷ lines) rows h = elim (Bool-cases (matches f job)) [
    | inl hit ↦ rw hit (
        drop_lines_other id lines (cancel_row now rows job) (ground (arith, h))
        ∙ get-cancel_row rows job id (ground (arith, h, hit)))
    | inr miss ↦ rw miss (drop_lines_other id lines rows (ground (arith, h)))
  ]

read-written :
    (n : ℕ) (rows : Dict Row) (d : Disk) (id : String)
    → (n ≡ 0 → rows ≡ read_statuses d)
    → Dict.get (read_statuses (write_dropped n rows d)) id ≡ Dict.get rows id
read-written zero rows d id h = rw (h refl)
read-written (suc n) rows d id h = refl

drop_lines_none :
    (f : Filter) (now : ℕ) (lines : List Line) (rows : Dict Row)
    → (drop_lines f now lines rows).1 ≡ 0
    → (drop_lines f now lines rows).2 ≡ rows
unfolding drop_lines
drop_lines_none f now [] rows h = refl
drop_lines_none f now (malformed ∷ lines) rows h = drop_lines_none f now lines rows h
drop_lines_none f now (row job ∷ lines) rows h = elim (Bool-cases (matches f job)) [
  | inl hit ↦ cc (rw hit at h)
  | inr miss ↦ rw miss (drop_lines_none f now lines rows (rw miss at h))
]

drop_from_other :
    (f : Filter) (now : ℕ) (d : Disk) (id : String) (q : Option (List Line))
    → names f id (lines_of q) ≡ false
    → Dict.get (read_statuses (drop_from f now d q).1) id ≡ Dict.get (read_statuses d) id
unfolding drop_from
drop_from_other f now d id none h = refl
drop_from_other f now d id (some lines) h =
    read-written (drop_lines f now lines (read_statuses d)).1 _ _ id
      (drop_lines_none f now lines (read_statuses d))
    ∙ drop_lines_other f now id lines (read_statuses d) h

-- The row of a job that no matching line of the queue names is left alone, whatever its status.
pub drop_queued_jobs_other :
    (f : Filter) (now : ℕ) (d : Disk) (id : String)
    → names f id (read_queue d) ≡ false
    → Dict.get (read_statuses (drop_queued_jobs f now d).1) id ≡ Dict.get (read_statuses d) id
unfolding drop_queued_jobs
drop_queued_jobs_other f now d id h = drop_from_other f now d id d.queue h
