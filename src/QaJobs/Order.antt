-- ===== src/QaJobs/Order.antt =====
-- The order in which the queue of QA scans is worked off, and what stops it.
use mathlib.Core.List.{append-nil, append_assoc}
use tempa.Base.{
  ℕ, zero, suc, String, Bool, true, false, ◌≡◌, refl, sym, ◌∙◌, map, ap, List, [], ◌∷◌, ◌++◌,
  length, All,
}
use tempa.Base.Value.{Row}
use tempa.Disk.{Line, row, malformed, Disk, read_queue}
use tempa.Disk.Lines.{row_breaks, written_lines, pieces}
use tempa.QaJobs.{
  Scan, scan_row, place, enqueue_scan, Claim, claimed, raised, claim_from, claim_next_job,
}

abbrev pub enqueue_all : List (String × Scan) → ℕ → Disk → Disk
enqueue_all [] now d = d
enqueue_all ((id, s) ∷ scans) now d = enqueue_all scans now (enqueue_scan id s now d)

abbrev pub AllPlain : List (String × Scan) → Type 0
AllPlain = All (λ (e : String × Scan). e.1.priority ≡ false)

abbrev pub scan_lines : ℕ → List (String × Scan) → List Line
scan_lines now [] = []
scan_lines now ((id, s) ∷ scans) = written_lines (scan_row id s now) ++ scan_lines now scans

-- No text of the scans' rows has a character at which its line breaks.
abbrev pub AllOnOneLine : ℕ → List (String × Scan) → Type 0
AllOnOneLine now = All (λ (e : String × Scan). row_breaks (scan_row e.0 e.1 now) ≡ 0)

written_whole : (r : Row) → row_breaks r ≡ 0 → written_lines r ≡ row r ∷ []
unfolding written_lines
written_whole r h = rw h

place_plain :
    (b : Bool) (written lines : List Line) → b ≡ false → place b written lines ≡ lines ++ written
place_plain true written lines h = cc
place_plain false written lines h = refl

place_urgent :
    (b : Bool) (written lines : List Line) → b ≡ true → place b written lines ≡ written ++ lines
place_urgent true written lines h = refl
place_urgent false written lines h = cc

read-enqueue_plain :
    (id : String) (s : Scan) (now : ℕ) (d : Disk)
    → s.priority ≡ false
    → read_queue (enqueue_scan id s now d) ≡ read_queue d ++ written_lines (scan_row id s now)
unfolding enqueue_scan
read-enqueue_plain id s now d plain = place_plain s.priority _ (read_queue d) plain

claim_first :
    (now : ℕ) (d : Disk) (job : Row) (lines : List Line)
    → read_queue d ≡ row job ∷ lines
    → ((claim_next_job now d).0 ≡ claimed job) × (read_queue (claim_next_job now d).1 ≡ lines)
unfolding claim_next_job
claim_first now d job lines h = rw (h, claim_from) (refl, refl)

claim_malformed :
    (now : ℕ) (d : Disk) (lines : List Line)
    → read_queue d ≡ malformed ∷ lines
    → claim_next_job now d ≡ (raised, d)
unfolding claim_next_job
claim_malformed now d lines h = rw (h, claim_from)

read-enqueue_all :
    (scans : List (String × Scan)) (now : ℕ) (d : Disk)
    → AllPlain scans
    → read_queue (enqueue_all scans now d) ≡ read_queue d ++ scan_lines now scans
read-enqueue_all [] now d h = sym (append-nil (read_queue d))
read-enqueue_all ((id, s) ∷ scans) now d h =
    read-enqueue_all scans now (enqueue_scan id s now d) h.1
    ∙ ap (λ l. l ++ scan_lines now scans) (read-enqueue_plain id s now d h.0)
    ∙ append_assoc (read_queue d) (written_lines (scan_row id s now)) (scan_lines now scans)

pub claims : ℕ → (rounds : ℕ) → Disk → List Claim
claims now zero d = []
claims now (suc k) d = let (c, d') = claim_next_job now d in c ∷ claims now k d'

in_order :
    (scans : List (String × Scan)) (now later : ℕ) (d : Disk)
    → AllOnOneLine now scans
    → read_queue d ≡ scan_lines now scans
    → claims later (length scans) d
      ≡ map (λ (e : String × Scan). claimed (scan_row e.0 e.1 now)) scans
unfolding claims
in_order [] now later d whole h = refl
in_order ((id, s) ∷ scans) now later d whole h =
    let (first, rest) =
      claim_first later d (scan_row id s now) (scan_lines now scans)
        (h ∙ ap (λ l. l ++ scan_lines now scans) (written_whole (scan_row id s now) whole.0)) in
    cc (first, in_order scans now later (claim_next_job later d).1 whole.1 rest)

-- Scans without priority are claimed in the order in which they were enqueued, where the queue was
-- empty and no text of their rows has a character at which its line breaks.
pub claims-enqueue_all :
    (scans : List (String × Scan)) (now later : ℕ) (d : Disk)
    → AllPlain scans
    → AllOnOneLine now scans
    → read_queue d ≡ []
    → claims later (length scans) (enqueue_all scans now d)
      ≡ map (λ (e : String × Scan). claimed (scan_row e.0 e.1 now)) scans
claims-enqueue_all scans now later d plain whole empty =
    in_order scans now later (enqueue_all scans now d) whole
      (read-enqueue_all scans now d plain ∙ ap (λ l. l ++ scan_lines now scans) empty)

-- A first line that does not parse stops the queue for good: the claim raises, changes nothing, and
-- does so again after any scans without priority.
pub claim_stuck :
    (scans : List (String × Scan)) (lines : List Line) (now later : ℕ) (d : Disk)
    → AllPlain scans
    → read_queue d ≡ malformed ∷ lines
    → claim_next_job later (enqueue_all scans now d) ≡ (raised, enqueue_all scans now d)
claim_stuck scans lines now later d plain first =
    claim_malformed later (enqueue_all scans now d) (lines ++ scan_lines now scans)
      (read-enqueue_all scans now d plain ∙ ap (λ l. l ++ scan_lines now scans) first)

written_broken :
    (r : Row) (n : ℕ) → row_breaks r ≡ suc n → written_lines r ≡ malformed ∷ malformed ∷ pieces n
unfolding written_lines
written_broken r n h = rw h

-- A scan with priority is the next one claimed, and its claim gives the queue back as it was. But
-- where a text of its row has a character at which its line breaks, the claim raises, and changes
-- nothing.
pub claim-enqueue_priority :
    (id : String) (s : Scan) (now later n : ℕ) (d : Disk)
    → s.priority ≡ true
    → (row_breaks (scan_row id s now) ≡ 0
        → ((claim_next_job later (enqueue_scan id s now d)).0 ≡ claimed (scan_row id s now))
          × (read_queue (claim_next_job later (enqueue_scan id s now d)).1 ≡ read_queue d))
      × (row_breaks (scan_row id s now) ≡ suc n
          → claim_next_job later (enqueue_scan id s now d) ≡ (raised, enqueue_scan id s now d))
unfolding enqueue_scan
claim-enqueue_priority id s now later n d urgent = (
  λ whole. claim_first later _ (scan_row id s now) (read_queue d) (
      place_urgent s.priority _ (read_queue d) urgent
      ∙ ap (λ l. l ++ read_queue d) (written_whole (scan_row id s now) whole)),
  λ broken. claim_malformed later _ (malformed ∷ pieces n ++ read_queue d) (
      place_urgent s.priority _ (read_queue d) urgent
      ∙ ap (λ l. l ++ read_queue d) (written_broken (scan_row id s now) n broken)),
)
