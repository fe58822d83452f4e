-- ===== src/CursorJobs/Claim.antt =====
-- What `claim_next_jobs` claims, keeps and writes.
use tempa.Base.{
  ℕ, zero, suc, ◌+◌, ◌≤◌, String, true, false, ◌≡◌, refl, sym, subst, Option, some, List, [], ◌∷◌,
  arith, eq_iff, ◌==◌, inl, inr, Bool-cases, ◌⊎◌, All, length,
}
use mathlib.Core.List.{Memᴰ}
use tempa.Base.Dict
use tempa.Base.Dict.{Dict, dict_laws, get-put}
use tempa.Base.Value.{Value, Row, str_or}
use tempa.Disk.{Line, row, malformed, Disk, read_statuses, read_queue}
use tempa.CursorJobs.{
  or_row, claimed_row, claim_row, current_row, job_id, is_queued, claim_lines, claim_from,
  claim_next_jobs,
}

abbrev pub status_of : Row → String
status_of r = str_or (Dict.get r "status")

pub status-claimed_row : (now : ℕ) (current : Row) → status_of (claimed_row now current) ≡ "running"
unfolding claimed_row str_or
status-claimed_row now current = simp dict_laws

pub or_row-put :
    (d : Row) (k : String) (v : Value) (job : Row)
    → or_row (some (Dict.put d k v)) job ≡ Dict.put d k v
unfolding Dict.put
or_row-put [] k v job = refl
or_row-put ((j, w) ∷ d) k v job = ground arith

or_row-claimed_row :
    (now : ℕ) (current job : Row)
    → or_row (some (claimed_row now current)) job ≡ claimed_row now current
unfolding claimed_row
or_row-claimed_row now current job = or_row-put _ "phase" _ job

-- The jobs claimed are at most the room, and each takes a line of its own from the queue.
claim_lines_sizes :
    (now room : ℕ) (lines : List Line) (rows : Dict Row)
    → (length (claim_lines now room lines rows).0 ≤ room)
      × (length (claim_lines now room lines rows).0 + length (claim_lines now room lines rows).1
          ≤ length lines)
unfolding claim_lines
claim_lines_sizes now zero [] rows = omega arith
claim_lines_sizes now (suc room) [] rows = omega arith
claim_lines_sizes now zero (line ∷ lines) rows = omega arith
claim_lines_sizes now (suc room) (malformed ∷ lines) rows =
    let h = claim_lines_sizes now (suc room) lines rows in omega (arith, h.0, h.1)
claim_lines_sizes now (suc room) (row job ∷ lines) rows =
    elim (Bool-cases (is_queued (current_row rows job))) [
      | inl queued ↦
          let h = claim_lines_sizes now room lines (claim_row now rows job) in
          rw queued (omega (arith, h.0, h.1))
      | inr other ↦
          let h = claim_lines_sizes now (suc room) lines rows in rw other (omega (arith, h.0, h.1))
    ]

-- What a claim may do to the row of the job `id`: leave it alone, or start it where it was queued.
-- `job` is a line of the queue with that id, which stands in for a row that is missing.
abbrev pub Moves : ℕ → List Line → String → Option Row → Option Row → Type 0
Moves now lines id before after =
    (after ≡ before)
    ⊎ ((job : Row) × Memᴰ (row job) lines
        × (job_id job ≡ id)
        × (is_queued (or_row before job) ≡ true)
        × (after ≡ some (claimed_row now (or_row before job))))

is_queued-claimed_row : (now : ℕ) (current : Row) → is_queued (claimed_row now current) ≡ false
unfolding is_queued
is_queued-claimed_row now current = rw (status-claimed_row now current)

Moves-tail :
    (now : ℕ) (line : Line) (lines : List Line) (id : String) (before after : Option Row)
    → Moves now lines id before after
    → Moves now (line ∷ lines) id before after
Moves-tail now line lines id before after (inl same) = inl same
Moves-tail now line lines id before after (inr (job, there, named, queued, e)) =
    inr (job, Memᴰ.tail there, named, queued, e)

Moves-claimed :
    (now : ℕ) (lines : List Line) (before after : Option Row) (job : Row)
    → is_queued (or_row before job) ≡ true
    → Moves now lines (job_id job) (some (claimed_row now (or_row before job))) after
    → Moves now (row job ∷ lines) (job_id job) before after
Moves-claimed now lines before after job queued (inl same) =
    inr (job, Memᴰ.head refl, refl, queued, same)
Moves-claimed now lines before after job queued (inr (j, there, named, again, e)) = cc (
  is_queued-claimed_row now (or_row before job),
  subst (λ r. is_queued r ≡ true) (or_row-claimed_row now (or_row before job) j) again,
)

-- One more claim in front of a move.
Moves-claim :
    (now : ℕ) (lines : List Line) (rows : Dict Row) (job : Row) (id : String) (after : Option Row)
    → is_queued (current_row rows job) ≡ true
    → Moves now lines id (Dict.get (claim_row now rows job) id) after
    → Moves now (row job ∷ lines) id (Dict.get rows id) after
Moves-claim now lines rows job id after queued h = elim (Bool-cases (job_id job == "")) [
  | inl blank ↦ Moves-tail now (row job) lines id (Dict.get rows id) after (rw blank at h)
  | inr named ↦ elim (Bool-cases (job_id job == id)) [
    | inl same ↦
        let e = (eq_iff (job_id job) id).0 same in
        subst (λ k. Moves now (row job ∷ lines) k (Dict.get rows k) after) e
          (Moves-claimed now lines (Dict.get rows (job_id job)) after job queued (
            subst
              (λ k.
                Moves now lines k (some (claimed_row now (or_row (Dict.get rows (job_id job)) job)))
                  after)
              (sym e) (rw (named, get-put, same) at h)))
    | inr other ↦
        Moves-tail now (row job) lines id (Dict.get rows id) after (rw (named, get-put, other) at h)
  ]
]

claim_lines-Moves :
    (now room : ℕ) (lines : List Line) (rows : Dict Row) (id : String)
    → Moves now lines id (Dict.get rows id) (Dict.get (claim_lines now room lines rows).2 id)
unfolding claim_lines
claim_lines-Moves now zero [] rows id = inl refl
claim_lines-Moves now (suc room) [] rows id = inl refl
claim_lines-Moves now zero (line ∷ lines) rows id = inl refl
claim_lines-Moves now (suc room) (malformed ∷ lines) rows id =
    Moves-tail now malformed lines id _ _ (claim_lines-Moves now (suc room) lines rows id)
claim_lines-Moves now (suc room) (row job ∷ lines) rows id =
    elim (Bool-cases (is_queued (current_row rows job))) [
      | inl queued ↦ rw queued (
          Moves-claim now lines rows job id _ queued
            (claim_lines-Moves now room lines (claim_row now rows job) id))
      | inr other ↦
          rw other
            (Moves-tail now (row job) lines id _ _ (claim_lines-Moves now (suc room) lines rows id))
    ]

-- The jobs that were claimed are running since the time of the call.
claim_lines-running :
    (now room : ℕ) (lines : List Line) (rows : Dict Row)
    → All (λ j. status_of j ≡ "running") (claim_lines now room lines rows).0
unfolding claim_lines
claim_lines-running now zero [] rows = tt
claim_lines-running now (suc room) [] rows = tt
claim_lines-running now zero (line ∷ lines) rows = tt
claim_lines-running now (suc room) (malformed ∷ lines) rows =
    claim_lines-running now (suc room) lines rows
claim_lines-running now (suc room) (row job ∷ lines) rows =
    elim (Bool-cases (is_queued (current_row rows job))) [
      | inl queued ↦
          rw queued
            (status-claimed_row now _, claim_lines-running now room lines (claim_row now rows job))
      | inr other ↦ rw other (claim_lines-running now (suc room) lines rows)
    ]

claim_from-Moves :
    (limit now : ℕ) (d : Disk) (id : String) (lines : List Line)
    → Moves now lines id
        (Dict.get (read_statuses d) id)
        (Dict.get (read_statuses (claim_from limit now d lines).1) id)
unfolding claim_from
claim_from-Moves limit now d id [] = inl refl
claim_from-Moves limit now d id (line ∷ lines) =
    claim_lines-Moves now limit (line ∷ lines) (read_statuses d) id

claim_from-running :
    (limit now : ℕ) (d : Disk) (lines : List Line)
    → All (λ j. status_of j ≡ "running") (claim_from limit now d lines).0
unfolding claim_from
claim_from-running limit now d [] = tt
claim_from-running limit now d (line ∷ lines) =
    claim_lines-running now limit (line ∷ lines) (read_statuses d)

claim_from-sizes :
    (limit now : ℕ) (d : Disk) (lines : List Line)
    → read_queue d ≡ lines
    → (length (claim_from limit now d lines).0 ≤ limit)
      × (length (claim_from limit now d lines).0
            + length (read_queue (claim_from limit now d lines).1)
          ≤ length (read_queue d))
unfolding claim_from
claim_from-sizes limit now d [] e = rw e (omega arith)
claim_from-sizes limit now d (line ∷ lines) e =
    rw e (claim_lines_sizes now limit (line ∷ lines) (read_statuses d))

-- A call claims at most `limit` jobs, all of them running now, and each takes a line of its own off
-- the queue.
pub claim_next_jobs_bounds :
    (limit now : ℕ) (d : Disk)
    → (length (claim_next_jobs limit now d).0 ≤ limit)
      × (length (claim_next_jobs limit now d).0
            + length (read_queue (claim_next_jobs limit now d).1)
          ≤ length (read_queue d))
      × All (λ j. status_of j ≡ "running") (claim_next_jobs limit now d).0
unfolding claim_next_jobs
claim_next_jobs_bounds zero now d = (omega arith, omega arith, tt)
claim_next_jobs_bounds (suc n) now d =
    let h = claim_from-sizes (suc n) now d (read_queue d) refl in
    (h.0, h.1, claim_from-running (suc n) now d (read_queue d))

-- A claim leaves the row of a job as it was or starts the job. It starts a job only where a line of
-- the queue has its id and its row, or that line where the row is missing, is queued, and what it
-- writes is that row as running since now.
pub claim_next_jobs-Moves :
    (limit now : ℕ) (d : Disk) (id : String)
    → Moves now
        (read_queue d)
        id
        (Dict.get (read_statuses d) id)
        (Dict.get (read_statuses (claim_next_jobs limit now d).1) id)
unfolding claim_next_jobs
claim_next_jobs-Moves zero now d id = inl refl
claim_next_jobs-Moves (suc n) now d id = claim_from-Moves (suc n) now d id (read_queue d)
