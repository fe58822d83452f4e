-- ===== src/MeetJobs/Examples.antt =====
-- A queue with two meetings at one URL and a third elsewhere, and the theorems on it.
use tempa.Base.{ℕ, String, true, none, some, [], ◌∷◌, ◌≡◌, ◌≢◌, refl, arith}
use tempa.Base.Dict
use tempa.Base.Dict.{Dict}
use tempa.Base.Value.{Row, text, time}
use tempa.Disk.{row, malformed, Disk, read_statuses, read_queue}
use tempa.MeetQuality.{MeetingQuality}
use tempa.MeetJobs.{Meeting, parse_queue_lines, active_job_for_url, is_at, is_active}
use tempa.MeetJobs.Coverage.{is_for_event}
use tempa.MeetJobs.Recover.{Sweep, recover_stale_running_jobs}
use tempa.MeetJobs.Settled.{recover_stale_running_jobs_again}
use tempa.MeetJobs.Claim.{claim_next_job}
use tempa.MeetJobs.Claim.Newest.{Fits, claim_next_job-Fits}
use tempa.MeetJobs.Claim.Superseded.{Effect, claim_next_job-Effect}
use tempa.MeetJobs.Claim.Apart.{Apart, claim_next_job-Apart}

abbrev waiting : String → String → ℕ → Row
waiting id url now =
    ("id", text id)
    ∷ ("meet_url", text url)
    ∷ ("enqueued_at", time now)
    ∷ ("status", text "queued")
    ∷ []

abbrev state : String → String → Row
state status url = ("status", text status) ∷ ("meet_url", text url) ∷ []

abbrev disk : Disk
disk = record {
  statuses =
      some
        (("a", state "queued" "u") ∷ ("b", state "queued" "u") ∷ ("r", state "running" "w") ∷ []);
  queue = some (
      row (waiting "a" "u" 10)
      ∷ malformed
      ∷ row (waiting "c" "v" 15)
      ∷ row (waiting "b" "u" 20)
      ∷ []);
}

abbrev meeting : Meeting
meeting = record {
  meet_url = "x";
  title = "Review";
  meeting_id = none;
  notify_number = some "+49";
  extra = ("duration_seconds", text "60") ∷ [];
}

abbrev quality : MeetingQuality
quality = record {
  humans_seen = true;
  segment_count = 3;
  leave_reason = "call_ended";
  recording_started_at = none;
  recording_ended_at = none;
}

abbrev startup : Sweep
startup = record { on_startup = true; max_age_minutes = 10; active_meeting_ids = []; now = 1_000 }

free : active_job_for_url "x" (read_statuses disk) ≡ none
unfolding active_job_for_url is_at is_active Dict.get
free = refl

plain : (Dict.get meeting.extra "status" ≡ none) × (Dict.get meeting.extra "meet_url" ≡ none)
unfolding Dict.get
plain = (refl, refl)

named : active_job_for_url "x" (read_statuses disk) ≢ some ""
named e = ground (arith, free)

claim_next_job-Fits_example : Fits (parse_queue_lines (read_queue disk)) (claim_next_job 30 disk).0
claim_next_job-Fits_example = claim_next_job-Fits 30 disk

found_a : Dict.get (read_statuses disk) "a" ≡ some (state "queued" "u")
unfolding Dict.get
found_a = refl

found_r : Dict.get (read_statuses disk) "r" ≡ some (state "running" "w")
unfolding Dict.get
found_r = refl

here : is_for_event "w" "" (state "running" "w") ≡ true
unfolding is_at Dict.get
here = refl

claim_next_job-Effect_example : Effect 30 "a" (state "queued" "u") (claim_next_job 30 disk)
claim_next_job-Effect_example = claim_next_job-Effect 30 disk "a" (state "queued" "u") found_a

claim_next_job-Apart_example :
    Apart (claim_next_job 30 disk).0 (claim_next_job 40 (claim_next_job 30 disk).1).0
claim_next_job-Apart_example = claim_next_job-Apart 30 40 disk

recover_stale_running_jobs_again_example :
    recover_stale_running_jobs startup (recover_stale_running_jobs startup disk).1
    ≡ (0, (recover_stale_running_jobs startup disk).1)
recover_stale_running_jobs_again_example = recover_stale_running_jobs_again startup disk
