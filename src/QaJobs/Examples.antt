-- ===== src/QaJobs/Examples.antt =====
-- Runs of the queue of QA scans.
use tempa.Base.{◌≡◌, refl, Bool, true, false, none, some, List, [], ◌∷◌, ◌++◌, map, String}
use tempa.Base.Value.{text}
use tempa.Disk.{row, malformed, Disk, read_statuses, read_queue}
use tempa.Disk.Lines.{written_lines, row_breaks, value_breaks, ended_lines}
use tempa.Base.Dict
use tempa.QaJobs.{
  Scan, scan_row, claimed, raised, claim_next_job, Filter, orphan_lines, recover_stale_running_jobs,
}
use tempa.QaJobs.Order.{enqueue_all, claims, claims-enqueue_all, claim_stuck}
use tempa.QaJobs.Restart.{count_running, recover_stale_running_jobs_lem}

abbrev scan : String → Bool → Scan
scan repo priority = record {
  repo = repo;
  branch = some "main";
  job_type = "branch_scan";
  pr_number = none;
  installation_id = none;
  priority = priority;
  extra = [];
}

abbrev empty_disk : Disk
empty_disk = record { statuses = none; queue = none }

abbrev two_scans : List (String × Scan)
two_scans = ("a", scan "x/y" false) ∷ ("b", scan "x/z" false) ∷ []

claims-enqueue_all_example :
    claims 9 2 (enqueue_all two_scans 5 empty_disk)
    ≡ map (λ (e : String × Scan). claimed (scan_row e.0 e.1 5)) two_scans
unfolding row_breaks value_breaks ended_lines scan_row Dict.update Dict.put
claims-enqueue_all_example =
    claims-enqueue_all two_scans 5 9 empty_disk (refl, (refl, tt)) (refl, (refl, tt)) refl

-- The row of a scan breaks at the line separator in its branch.
broken_scan :
    (let s = record (scan "x/y" false) { branch = some "a\u{2028}b" } in
      written_lines (scan_row "c" s 5))
    ≡ malformed ∷ malformed ∷ []
unfolding written_lines row_breaks value_breaks ended_lines scan_row Dict.update Dict.put
broken_scan = refl

abbrev broken_disk : Disk
broken_disk = record {
  statuses = some (("r", ("id", text "r") ∷ ("status", text "running") ∷ []) ∷ []);
  queue = some (malformed ∷ row (("id", text "q") ∷ ("repo", text "x/y") ∷ []) ∷ []);
}

claim_stuck_example :
    claim_next_job 9 (enqueue_all two_scans 5 broken_disk)
    ≡ (raised, enqueue_all two_scans 5 broken_disk)
claim_stuck_example =
    claim_stuck two_scans (row (("id", text "q") ∷ ("repo", text "x/y") ∷ []) ∷ []) 5 9 broken_disk
      (refl, (refl, tt)) refl

recover_stale_running_jobs_example :
    (let (recovered, d) = recover_stale_running_jobs true 9 broken_disk in
      (recovered ≡ count_running (read_statuses broken_disk))
      × (count_running (read_statuses d) ≡ 0)
      × (read_queue d ≡ orphan_lines 9 (read_statuses broken_disk) ++ read_queue broken_disk))
recover_stale_running_jobs_example = recover_stale_running_jobs_lem 9 broken_disk

abbrev by_repo : Filter
by_repo = record { source_channel = none; repo = some "x/y"; job_type = some "" }
