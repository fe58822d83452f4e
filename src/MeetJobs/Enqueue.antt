-- ===== src/MeetJobs/Enqueue.antt =====
-- What enqueueing a meeting gives: one active job for a URL, and no need for another.
use tempa.Base.{
  ℕ, String, true, false, Option, none, some, [], ◌∷◌, ◌==◌, ◌≡◌, ◌≢◌, refl, ap, ◌∙◌, arith,
  eq_refl, inl, inr, Bool-cases, Option-cases, eq_iff, if_same,
}
use tempa.Base.Dict
use tempa.Base.Dict.{Dict, get-put, get-update_other}
use tempa.Base.Value.{Value, Row, text}
use tempa.Disk.{Disk, read_statuses}
use tempa.MeetJobs.{
  is_active, is_at, active_job_from, active_job_for_url, Meeting, status_row, chosen_id,
  enqueue_unless, enqueue_meet_job,
}
use tempa.MeetJobs.Coverage.{event_needs_coverage}

-- The extra fields leave the status and the URL alone.
abbrev pub IsPlain : Meeting → Type 0
IsPlain m = (Dict.get m.extra "status" ≡ none) × (Dict.get m.extra "meet_url" ≡ none)

abbrev base_row : Meeting → Row
base_row m =
    ("status", text "queued") ∷ ("meet_url", text m.meet_url) ∷ ("title", text m.title) ∷ []

status_row-is_active : (m : Meeting) → IsPlain m → is_active (status_row m) ≡ true
unfolding status_row is_active
status_row-is_active m plain =
    rw (get-update_other m.extra (base_row m) "status" plain.0) (unfold Dict.get in refl)

status_row-is_at : (m : Meeting) → IsPlain m → is_at m.meet_url (status_row m) ≡ true
unfolding status_row is_at
status_row-is_at m plain =
    rw (get-update_other m.extra (base_row m) "meet_url" plain.1)
      (unfold Dict.get in eq_refl m.meet_url)

active_job_from-put :
    (url id : String) (r : Row) (rows : Dict Row)
    → is_at url r ≡ true
    → is_active r ≡ true
    → active_job_from url rows ≡ none
    → active_job_from url (Dict.put rows id r) ≡ some id
unfolding Dict.put
active_job_from-put url id r [] here active h = rw (here, active)
active_job_from-put url id r ((j, v) ∷ rows) here active h =
    ground (arith, eq_iff j id, active_job_from-put url id r rows here active)

active_job_for_url-put :
    (m : Meeting) (id : String) (rows : Dict Row)
    → IsPlain m
    → (m.meet_url == "") ≡ false
    → active_job_for_url m.meet_url rows ≡ none
    → active_job_for_url m.meet_url (Dict.put rows id (status_row m)) ≡ some id
unfolding active_job_for_url
active_job_for_url-put m id rows plain url h = rw url (
    active_job_from-put m.meet_url id (status_row m) rows (status_row-is_at m plain)
      (status_row-is_active m plain) (ground arith))

-- What a call leaves: the URL has the returned job, and no other before it.
enqueue_meet_job-active :
    (uuid : String) (m : Meeting) (now : ℕ) (d : Disk)
    → IsPlain m
    → (m.meet_url == "") ≡ false
    → active_job_for_url m.meet_url (read_statuses d) ≢ some ""
    → active_job_for_url m.meet_url (read_statuses (enqueue_meet_job uuid m now d).1)
      ≡ some (enqueue_meet_job uuid m now d).0
unfolding enqueue_meet_job enqueue_unless
enqueue_meet_job-active uuid m now d plain url named =
    elim (Option-cases (active_job_for_url m.meet_url (read_statuses d))) [
      | inl free ↦
          rw free (
            active_job_for_url-put m (chosen_id m.meeting_id uuid) (read_statuses d) plain url free)
      | inr (existing, busy) ↦ elim (Bool-cases (existing == "")) [
        | inl blank ↦ absurd (named (busy ∙ ap some ((eq_iff existing "").0 blank)))
        | inr proper ↦ rw (busy, proper) busy
      ]
    ]

-- The identifier that a call returns is not empty, unless the new job's was.
enqueue_meet_job_named :
    (uuid : String) (m : Meeting) (now : ℕ) (d : Disk)
    → (chosen_id m.meeting_id uuid == "") ≡ false
    → ((enqueue_meet_job uuid m now d).0 == "") ≡ false
unfolding enqueue_meet_job enqueue_unless
enqueue_meet_job_named uuid m now d fresh =
    elim (Option-cases (active_job_for_url m.meet_url (read_statuses d))) [
      | inl free ↦ rw free fresh
      | inr (existing, busy) ↦ elim (Bool-cases (existing == "")) [
        | inl blank ↦ rw (busy, blank) fresh
        | inr proper ↦ rw (busy, proper) proper
      ]
    ]

enqueue_busy :
    (uuid id : String) (m : Meeting) (now : ℕ) (d : Disk)
    → active_job_for_url m.meet_url (read_statuses d) ≡ some id
    → (id == "") ≡ false
    → enqueue_meet_job uuid m now d ≡ (id, d)
unfolding enqueue_meet_job enqueue_unless
enqueue_busy uuid id m now d busy proper = rw (busy, proper)

-- A second request for a URL gives the identifier of the first, and adds nothing: where the URL is
-- not empty, the first one's extra fields set no status or URL, and no job has an empty identifier.
pub enqueue_meet_job_again :
    (uuid uuid' : String) (m m' : Meeting) (now now' : ℕ) (d : Disk)
    → IsPlain m
    → (m.meet_url == "") ≡ false
    → active_job_for_url m.meet_url (read_statuses d) ≢ some ""
    → (chosen_id m.meeting_id uuid == "") ≡ false
    → m'.meet_url ≡ m.meet_url
    → enqueue_meet_job uuid' m' now' (enqueue_meet_job uuid m now d).1
      ≡ enqueue_meet_job uuid m now d
enqueue_meet_job_again uuid uuid' m m' now now' d plain url named fresh same =
    let (id, d') = enqueue_meet_job uuid m now d in
    enqueue_busy uuid' id m' now' d'
      (rw same (enqueue_meet_job-active uuid m now d plain url named))
      (enqueue_meet_job_named uuid m now d fresh)

-- Once a meeting was enqueued, no event needs a join at its URL, whatever its identifier and its
-- end, under the same conditions.
pub event_needs_coverage-enqueue :
    (uuid : String) (m : Meeting) (now later : ℕ) (d : Disk)
    → IsPlain m
    → (m.meet_url == "") ≡ false
    → active_job_for_url m.meet_url (read_statuses d) ≢ some ""
    → (chosen_id m.meeting_id uuid == "") ≡ false
    → (event_id : Option String) (event_end : Option Value) (debounce_seconds : ℕ)
    → event_needs_coverage m.meet_url event_id event_end debounce_seconds later
        (enqueue_meet_job uuid m now d).1
      ≡ false
unfolding event_needs_coverage
event_needs_coverage-enqueue uuid m now later d plain url named fresh event_id end seconds =
    rw
      (
        url,
        enqueue_meet_job-active uuid m now d plain url named,
        enqueue_meet_job_named uuid m now d fresh,
      )
      (if_same _ false)
