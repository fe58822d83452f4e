-- ===== src/MeetJobs/Claim/Apart.antt =====
-- What a claim leaves in the queue: no line that waits at its URL.
use tempa.Base.{
  ℕ, zero, suc, String, true, false, Option, none, some, List, [], ◌∷◌, ◌++◌, ◌==◌, ◌≡◌, refl,
  subst, arith, inl, inr, Bool-cases, Option-cases, All, All-map,
}
use tempa.Base.Dict
use tempa.Base.Dict.{Dict, get-put, get-put_self}
use tempa.Base.Value.{Value, Row, str}
use tempa.Disk.{Line, Disk, read_queue}
use tempa.Disk.Lines.{row_breaks, lines_from, pieces, written_lines}
use tempa.MeetJobs.{parse_queue_lines}
use tempa.MeetJobs.Claim.{
  is_candidate, url_of, is_taken, remaining_lines, dedupe_queued_jobs, Claim, claimed, claim_job,
  claim_first, claim_next_job,
}
use tempa.MeetJobs.Claim.Newest.{dedupe-All}

parse-pieces :
    (n : ℕ) (rest : List Line) → parse_queue_lines (pieces n ++ rest) ≡ parse_queue_lines rest
unfolding parse_queue_lines
parse-pieces zero rest = refl
parse-pieces (suc n) rest = parse-pieces n rest

-- A row that was written back reads as itself, or not at all where its line breaks.
parse-written :
    (P : Row → Type 0) (r : Row) (rest : List Line)
    → P r
    → All P (parse_queue_lines rest)
    → All P (parse_queue_lines (written_lines r ++ rest))
unfolding parse_queue_lines written_lines
parse-written P r rest h hs = from (row_breaks r)
  where
    from : (n : ℕ) → All P (parse_queue_lines (lines_from r n ++ rest))
    from zero = (h, hs)
    from (suc n) = rw parse-pieces hs

parse-remaining :
    (id url : String) (rows : List Row)
    → All (λ r. is_taken id url r ≡ false) (parse_queue_lines (remaining_lines id url rows))
unfolding remaining_lines parse_queue_lines
parse-remaining id url [] = tt
parse-remaining id url (r ∷ rows) = elim (Bool-cases (is_taken id url r)) [
  | inl taken ↦ rw taken (parse-remaining id url rows)
  | inr stays ↦
      rw stays
        (parse-written (λ q. is_taken id url q ≡ false) r _ stays (parse-remaining id url rows))
]

-- A row that waits at another URL than the lines that are left.
abbrev IsElsewhere : String → Row → Type 0
IsElsewhere url r = (url_of r == url) ≡ false

untaken-IsElsewhere :
    (id url : String) (r : Row)
    → is_taken id url r ≡ false
    → is_candidate r ≡ true
    → IsElsewhere url r
unfolding is_taken is_candidate
untaken-IsElsewhere id url r h waits = ground arith

abbrev Elsewhere : String → Claim → Type 0
Elsewhere url (claimed job) = IsElsewhere url job
Elsewhere url other = Unit

claim_first-Elsewhere :
    (now : ℕ) (d : Disk) (url : String) (candidates : List Row)
    → All (IsElsewhere url) candidates
    → Elsewhere url (claim_first now d candidates).0
unfolding claim_first claim_job
claim_first-Elsewhere now d url [] h = tt
claim_first-Elsewhere now d url (job ∷ candidates) h = elim (Option-cases (Dict.get job "id")) [
  | inl missing ↦ rw missing tt
  | inr (v, named) ↦ rw named h.0
]

remaining-Elsewhere :
    (now : ℕ) (id url : String) (rows : List Row) (d : Disk)
    → read_queue d ≡ remaining_lines id url rows
    → Elsewhere url (claim_next_job now d).0
unfolding claim_next_job
remaining-Elsewhere now id url rows d e = rw e (
    claim_first-Elsewhere now d url
      (dedupe_queued_jobs (parse_queue_lines (remaining_lines id url rows)))
      (dedupe-All (IsElsewhere url) (parse_queue_lines (remaining_lines id url rows)) (
        All-map (λ r stays waits. untaken-IsElsewhere id url r stays waits)
          (parse_queue_lines (remaining_lines id url rows)) (parse-remaining id url rows))))

-- Where both claims give a job, their URLs differ.
abbrev pub Apart : Claim → Claim → Type 0
Apart (claimed job) other = Elsewhere (url_of job) other
Apart first other = Unit

claim_job-Apart :
    (now later : ℕ) (d : Disk) (job : Row) (id : Option Value)
    → Apart (claim_job now d job id).0 (claim_next_job later (claim_job now d job id).1).0
unfolding claim_job
claim_job-Apart now later d job none = tt
claim_job-Apart now later d job (some v) =
    remaining-Elsewhere later (str v) (url_of job) (parse_queue_lines (read_queue d)) _ refl

claim_first-Apart :
    (now later : ℕ) (d : Disk) (candidates : List Row)
    → Apart
        (claim_first now d candidates).0
        (claim_next_job later (claim_first now d candidates).1).0
unfolding claim_first
claim_first-Apart now later d [] = tt
claim_first-Apart now later d (job ∷ candidates) =
    claim_job-Apart now later d job (Dict.get job "id")

first_claim :
    (now : ℕ) (d : Disk)
    → claim_first now d (dedupe_queued_jobs (parse_queue_lines (read_queue d)))
      ≡ claim_next_job now d
unfolding claim_next_job
first_claim now d = refl

-- With nothing enqueued between them, two claims that give jobs give jobs of different URLs.
pub claim_next_job-Apart :
    (now later : ℕ) (d : Disk)
    → Apart (claim_next_job now d).0 (claim_next_job later (claim_next_job now d).1).0
claim_next_job-Apart now later d =
    subst (λ (c : Claim × Disk). Apart c.0 (claim_next_job later c.1).0) (first_claim now d)
      (claim_first-Apart now later d (dedupe_queued_jobs (parse_queue_lines (read_queue d))))
