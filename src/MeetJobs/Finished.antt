-- ===== src/MeetJobs/Finished.antt =====
-- A meeting that was finalised is covered: the status that meet/quality.py names for it closes its
-- event.
use tempa.Base.{
  ℕ, String, Bool, true, false, ◌||◌, Option, some, List, [], ◌∷◌, ◌==◌, ◌≡◌, refl, ◌∙◌, arith, inl,
  inr, Bool-cases, any, if_same,
}
use tempa.Base.Dict
use tempa.Base.Dict.{Dict, get-put, get-put_self, get-update_other, update}
use tempa.Base.Value.{Value, Row, text, num}
use tempa.Disk.{Disk, read_statuses}
use tempa.MeetQuality.{MeetingQuality, terminal_status, uploadable}
use tempa.MeetJobs.{is_at, update_job_status}
use tempa.MeetJobs.Coverage.{
  is_for_event, event_key, select_rows, is_covered, jobs_for_event, jobs_need, or_of_url,
  event_needs_coverage,
}

-- The fields that finalising a meeting writes.
abbrev pub final_fields : MeetingQuality → Row
final_fields q = ("status", text (terminal_status q)) ∷ ("segment_count", num q.segment_count) ∷ []

covered_text :
    (status : String) (r : Row)
    → Dict.get r "status" ≡ some (text status)
    → (status == "completed" || status == "empty") ≡ true
    → is_covered r ≡ true
unfolding is_covered
covered_text status r e covered = rw e (ground arith)

final_status :
    (q : MeetingQuality) (r : Row)
    → Dict.get (Dict.update r (final_fields q)) "status" ≡ some (text (terminal_status q))
unfolding update
final_status q r = rw (get-put, get-put_self)

terminal_covered :
    (q : MeetingQuality) → (terminal_status q == "completed" || terminal_status q == "empty") ≡ true
unfolding terminal_status
terminal_covered q = elim (Bool-cases (uploadable q)) [
  | inl speech ↦ rw speech
  | inr silent ↦ rw silent
]

final-is_covered :
    (q : MeetingQuality) (r : Row) → is_covered (Dict.update r (final_fields q)) ≡ true
final-is_covered q r =
    covered_text (terminal_status q) (Dict.update r (final_fields q)) (final_status q r)
      (terminal_covered q)

final-is_for_event :
    (q : MeetingQuality) (url key : String) (r : Row)
    → is_for_event url key (Dict.update r (final_fields q)) ≡ is_for_event url key r
unfolding is_at
final-is_for_event q url key r = rw (
  get-update_other (final_fields q) r "meet_url" (unfold Dict.get in refl),
  get-update_other (final_fields q) r "calendar_event_id" (unfold Dict.get in refl),
)

any-select_rows :
    (p : Row → Bool) (rows : Dict Row) (id : String) (r : Row)
    → p r ≡ true
    → is_covered r ≡ true
    → any is_covered (select_rows p (Dict.put rows id r)) ≡ true
unfolding Dict.put
any-select_rows p [] id r here covered = rw (here, covered)
any-select_rows p ((j, v) ∷ rows) id r here covered =
    ground (arith, any-select_rows p rows id r here covered)

jobs_need_covered :
    (now seconds : ℕ) (rows others : List Row)
    → any is_covered rows ≡ true
    → jobs_need now seconds (or_of_url rows others) ≡ false
unfolding jobs_need
jobs_need_covered now seconds [] others h = ground arith
jobs_need_covered now seconds (r ∷ rows) others h = rw h

final_jobs :
    (q : MeetingQuality) (id url : String) (event_id : Option String) (r : Row) (rows : Dict Row)
    → is_for_event url (event_key event_id) r ≡ true
    → any is_covered
        (jobs_for_event (Dict.put rows id (Dict.update r (final_fields q))) url event_id)
      ≡ true
unfolding jobs_for_event
final_jobs q id url event_id r rows here =
    any-select_rows (is_for_event url (event_key event_id)) rows id (Dict.update r (final_fields q))
      (final-is_for_event q url (event_key event_id) r ∙ here) (final-is_covered q r)

-- Once the terminal status of a meeting's recording is written to one of the jobs of an event, the
-- event needs no other join, at any time.
pub event_needs_coverage-final :
    (q : MeetingQuality) (id url : String) (event_id : Option String) (r : Row) (d : Disk)
    → Dict.get (read_statuses d) id ≡ some r
    → is_for_event url (event_key event_id) r ≡ true
    → (event_end : Option Value) (debounce_seconds now : ℕ)
    → event_needs_coverage url event_id event_end debounce_seconds now
        (update_job_status id (final_fields q) d)
      ≡ false
unfolding event_needs_coverage update_job_status
event_needs_coverage-final q id url event_id r d found here event_end seconds now = rw (
  found,
  jobs_need_covered now seconds _ _ (final_jobs q id url event_id r (read_statuses d) here),
  if_same,
  if_same,
  if_same,
)
