-- ===== src/MeetJobs/Claim/Newest.antt =====
-- Which meeting a claim takes: the newest of those that wait with a URL.
use mathlib.Core.List.{Memᴰ}
use tempa.Base.{
  ℕ, String, true, false, Option, none, some, List, [], ◌∷◌, ◌==◌, ◌≡◌, ◌≢◌, ◌≤◌, sym, subst, arith,
  inl, inr, Bool-cases, All, All-map, All-self, All-select, select, Option-cases, eq_iff, suc,
}
use tempa.Base.Dict
use tempa.Base.Dict.{Dict, get-put, get-put_self}
use tempa.Base.Sort.{
  sort_desc, sort_desc-IsDescending, All-sort_desc, All-unsort, IsDescending, IsBelow,
}
use tempa.Base.Value.{Row}
use tempa.Disk.{Disk, read_queue}
use tempa.MeetJobs.{parse_queue_lines}
use tempa.MeetJobs.Claim.{
  age_key, is_candidate, url_of, takes, add_newest, newest_by_url, dedupe_queued_jobs, Claim,
  claimed, nothing, raised, claim_job, claim_first, claim_next_job,
}

abbrev key_of : Option Row → ℕ
key_of none = 0
key_of (some r) = suc (age_key r)

takes_le : (found : Option Row) (r : Row) → takes found r ≡ true → key_of found ≤ suc (age_key r)
takes_le none r h = omega arith
takes_le (some existing) r h = ground arith

spares_le : (found : Option Row) (r : Row) → takes found r ≡ false → suc (age_key r) ≤ key_of found
spares_le none r h = ground arith
spares_le (some existing) r h = ground arith

All-put {ℓ} :
    (P : Row → Type ℓ) (d : Dict Row) (k : String) (r : Row)
    → P r
    → All P (Dict.values d)
    → All P (Dict.values (Dict.put d k r))
unfolding Dict.put
All-put P [] k r p h = (p, tt)
All-put P ((j, v) ∷ d) k r p h = elim (Bool-cases (j == k)) [
  | inl same ↦ rw same (p, h.1)
  | inr apart ↦ rw apart (h.0, All-put P d k r p h.1)
]

add_newest-grows :
    (newest : Dict Row) (r : Row) (k : String)
    → key_of (Dict.get newest k) ≤ key_of (Dict.get (add_newest newest r) k)
unfolding add_newest
add_newest-grows newest r k = elim (Bool-cases (takes (Dict.get newest (url_of r)) r)) [
  | inl later ↦ elim (Bool-cases (url_of r == k)) [
    | inl same ↦
        rw (later, get-put newest (url_of r) k r, same, sym ((eq_iff (url_of r) k).0 same))
          (takes_le (Dict.get newest (url_of r)) r later)
    | inr apart ↦ rw (later, get-put newest (url_of r) k r, apart) (omega arith)
  ]
  | inr earlier ↦ rw earlier (omega arith)
]

add_newest-covers :
    (newest : Dict Row) (r : Row)
    → suc (age_key r) ≤ key_of (Dict.get (add_newest newest r) (url_of r))
unfolding add_newest
add_newest-covers newest r = elim (Bool-cases (takes (Dict.get newest (url_of r)) r)) [
  | inl later ↦ rw (later, get-put_self newest (url_of r) r) (omega arith)
  | inr earlier ↦ rw earlier (spares_le (Dict.get newest (url_of r)) r earlier)
]

newest-grows :
    (rows : List Row) (newest : Dict Row) (k : String)
    → key_of (Dict.get newest k) ≤ key_of (Dict.get (newest_by_url rows newest) k)
unfolding newest_by_url
newest-grows [] newest k = omega arith
newest-grows (r ∷ rows) newest k = elim (Bool-cases (is_candidate r)) [
  | inl waits ↦
      rw waits
        (omega (arith, add_newest-grows newest r k, newest-grows rows (add_newest newest r) k))
  | inr idle ↦ rw idle (newest-grows rows newest k)
]

-- No row that waits with a URL is newer than what the dictionary has for its URL.
abbrev IsCovered : Dict Row → Row → Type 0
IsCovered newest r = is_candidate r ≡ true → suc (age_key r) ≤ key_of (Dict.get newest (url_of r))

newest_waits :
    (r : Row) (rows : List Row) (newest : Dict Row)
    → is_candidate r ≡ true
    → newest_by_url (r ∷ rows) newest ≡ newest_by_url rows (add_newest newest r)
unfolding newest_by_url
newest_waits r rows newest h = rw h

newest_idle :
    (r : Row) (rows : List Row) (newest : Dict Row)
    → is_candidate r ≡ false
    → newest_by_url (r ∷ rows) newest ≡ newest_by_url rows newest
unfolding newest_by_url
newest_idle r rows newest h = rw h

newest-IsCovered :
    (rows : List Row) (newest : Dict Row) → All (IsCovered (newest_by_url rows newest)) rows
newest-IsCovered [] newest = tt
newest-IsCovered (r ∷ rows) newest = elim (Bool-cases (is_candidate r)) [
  | inl waits ↦
      subst (λ n. All (IsCovered n) (r ∷ rows)) (sym (newest_waits r rows newest waits))
        (
          λ h. omega (
            arith,
            add_newest-covers newest r,
            newest-grows rows (add_newest newest r) (url_of r),
          ),
          newest-IsCovered rows (add_newest newest r),
        )
  | inr idle ↦
      subst (λ n. All (IsCovered n) (r ∷ rows)) (sym (newest_idle r rows newest idle))
        ((λ h. ground arith), newest-IsCovered rows newest)
]

-- What holds of the rows that wait with a URL holds of the rows in the dictionary.
newest-All {ℓ} :
    (P : Row → Type ℓ) (rows : List Row) (newest : Dict Row)
    → All (λ r. is_candidate r ≡ true → P r) rows
    → All P (Dict.values newest)
    → All P (Dict.values (newest_by_url rows newest))
unfolding newest_by_url add_newest
newest-All P [] newest p h = h
newest-All P (r ∷ rows) newest p h = elim (Bool-cases (is_candidate r)) [
  | inl waits ↦ elim (Bool-cases (takes (Dict.get newest (url_of r)) r)) [
    | inl later ↦
        rw (waits, later)
          (newest-All P rows (Dict.put newest (url_of r) r) p.1
            (All-put P newest (url_of r) r (p.0 waits) h))
    | inr earlier ↦ rw (waits, earlier) (newest-All P rows newest p.1 h)
  ]
  | inr idle ↦ rw idle (newest-All P rows newest p.1 h)
]

-- And of the candidates of a claim.
pub dedupe-All {ℓ} :
    (P : Row → Type ℓ) (rows : List Row)
    → All (λ r. is_candidate r ≡ true → P r) rows
    → All P (dedupe_queued_jobs rows)
unfolding dedupe_queued_jobs
dedupe-All P rows h =
    All-sort_desc age_key P (Dict.values (newest_by_url rows [])) (newest-All P rows [] h tt)

get_le :
    (n : ℕ) (d : Dict Row) (k : String)
    → All (λ r. suc (age_key r) ≤ n) (Dict.values d)
    → key_of (Dict.get d k) ≤ n
unfolding Dict.get
get_le n [] k h = omega arith
get_le n ((j, r) ∷ d) k h = elim (Bool-cases (j == k)) [
  | inl same ↦ rw same h.0
  | inr apart ↦ rw apart (get_le n d k h.1)
]

-- One of the rows that waits with a URL, and none of the rows that do is newer.
abbrev pub IsNewest : List Row → Row → Type 0
IsNewest rows job =
    Memᴰ job rows
    × (is_candidate job ≡ true)
    × All (λ r. age_key r ≤ age_key job) (select is_candidate rows)

-- A claim takes the newest row, raises where that row has no identifier, and takes nothing only
-- where no row waits with a URL.
abbrev pub Fits : List Row → Claim → Type 0
Fits rows nothing = All (λ r. is_candidate r ≡ false) rows
Fits rows (claimed job) = IsNewest rows job × (Dict.get job "id" ≢ none)
Fits rows raised = (job : Row) × IsNewest rows job × (Dict.get job "id" ≡ none)

abbrev Tops : List Row → (candidates : List Row) → Type 0
Tops rows [] = All (λ r. is_candidate r ≡ false) rows
Tops rows (job ∷ candidates) = IsNewest rows job

abbrev top_of : List Row → ℕ
top_of [] = 0
top_of (job ∷ candidates) = suc (age_key job)

IsBelow-All :
    (n : ℕ) (jobs : List Row) → IsBelow age_key n jobs → All (λ r. suc (age_key r) ≤ suc n) jobs
IsBelow-All n [] h = tt
IsBelow-All n (r ∷ jobs) h = (omega (arith, h.0), IsBelow-All n jobs h.1)

IsDescending-top_of :
    (jobs : List Row) → IsDescending age_key jobs → All (λ r. suc (age_key r) ≤ top_of jobs) jobs
IsDescending-top_of [] h = tt
IsDescending-top_of (r ∷ jobs) h = (omega arith, IsBelow-All (age_key r) jobs h.0)

-- What the sorted list starts with is above each row that waits with a URL.
covered_top :
    (rows : List Row) (newest : Dict Row)
    → All (IsCovered newest) rows
    → All
        (λ r.
          is_candidate r ≡ true → suc (age_key r) ≤ top_of (sort_desc age_key (Dict.values newest)))
        rows
covered_top rows newest h =
    let n = top_of (sort_desc age_key (Dict.values newest)) in
    let below =
      All-unsort age_key (λ r. suc (age_key r) ≤ n) (Dict.values newest)
        (IsDescending-top_of (sort_desc age_key (Dict.values newest))
          (sort_desc-IsDescending age_key (Dict.values newest))) in
    All-map (λ r covered waits. omega (arith, covered waits, get_le n newest (url_of r) below)) rows
      h

sorted-Tops :
    (rows candidates : List Row)
    → All (λ r. Memᴰ r rows × (is_candidate r ≡ true)) candidates
    → All (λ r. is_candidate r ≡ true → suc (age_key r) ≤ top_of candidates) rows
    → Tops rows candidates
sorted-Tops rows [] waits h = All-map (λ r above. ground arith) rows h
sorted-Tops rows (job ∷ candidates) waits h = (
  waits.0.0,
  waits.0.1,
  All-select (λ r. age_key r ≤ age_key job) is_candidate rows
      (All-map (λ r above e. omega (arith, above e)) rows h),
)

dedupe-Tops : (rows : List Row) → Tops rows (dedupe_queued_jobs rows)
unfolding dedupe_queued_jobs
dedupe-Tops rows =
    let newest = newest_by_url rows [] in
    sorted-Tops rows (sort_desc age_key (Dict.values newest))
      (dedupe-All (λ r. Memᴰ r rows × (is_candidate r ≡ true)) rows
        (All-map (λ r here waits. (here, waits)) rows (All-self rows)))
      (covered_top rows newest (newest-IsCovered rows []))

claim_first-Fits :
    (now : ℕ) (d : Disk) (rows candidates : List Row)
    → Tops rows candidates
    → Fits rows (claim_first now d candidates).0
unfolding claim_first claim_job
claim_first-Fits now d rows [] tops = tops
claim_first-Fits now d rows (job ∷ candidates) tops = elim (Option-cases (Dict.get job "id")) [
  | inl missing ↦ rw missing (job, tops, missing)
  | inr (v, named) ↦ rw named (tops, λ e. ground arith)
]

-- Whatever the queue holds, a claim takes the newest of the rows that wait with a URL; it takes
-- nothing only where there is none, and raises only where the newest has no identifier.
pub claim_next_job-Fits :
    (now : ℕ) (d : Disk) → Fits (parse_queue_lines (read_queue d)) (claim_next_job now d).0
unfolding claim_next_job
claim_next_job-Fits now d =
    let rows = parse_queue_lines (read_queue d) in
    claim_first-Fits now d rows (dedupe_queued_jobs rows) (dedupe-Tops rows)
