-- ===== src/MeetQuality.antt =====
-- The quality of a recorded meeting: meet/quality.py of src/tempa.
use tempa.Base.{
  ℕ, suc, String, Bool, false, not, Option, none, some, List, [], ◌∷◌, ◌==◌, ltb, if◌then◌else◌,
}
use tempa.Base.Dict
use tempa.Base.Text.{strip}
use tempa.Base.Value.{Row, Value, str_or, flag, num, text, null}

pub record MeetingQuality : Type 0 where
  pub humans_seen : Bool
  pub segment_count : ℕ
  pub leave_reason : String
  pub recording_started_at : Option String
  pub recording_ended_at : Option String

unfoldable pub meeting_is_uploadable : (segment_count : ℕ) → (humans_seen : Bool) → Bool
meeting_is_uploadable segment_count humans_seen = ltb 0 segment_count

unfoldable pub uploadable : MeetingQuality → Bool
unfolding meeting_is_uploadable
uploadable q = meeting_is_uploadable q.segment_count q.humans_seen

unfoldable pub terminal_status : MeetingQuality → String
unfolding uploadable
terminal_status q = if uploadable q then "completed" else "empty"

abbrev text_or_null : Option String → Value
text_or_null none = null
text_or_null (some s) = text s

unfoldable pub as_dict : MeetingQuality → Row
as_dict q =
    ("humans_seen", flag q.humans_seen)
    ∷ ("segment_count", num q.segment_count)
    ∷ ("leave_reason", text q.leave_reason)
    ∷ ("recording_started_at", text_or_null q.recording_started_at)
    ∷ ("recording_ended_at", text_or_null q.recording_ended_at)
    ∷ ("uploadable", flag (uploadable q))
    ∷ []

-- A segment that is no object is `none`.
unfoldable pub has_text : Option Row → Bool
has_text none = false
has_text (some r) = not (strip (str_or (Dict.get r "text")) == "")

unfoldable pub count_transcript_segments : List (Option Row) → ℕ
unfolding has_text
count_transcript_segments [] = 0
count_transcript_segments (s ∷ segments) =
    let n = count_transcript_segments segments in if has_text s then suc n else n

abbrev or_call_ended : String → String
or_call_ended s = if s == "" then "call_ended" else s

unfoldable pub quality_from_parts :
    Bool → List (Option Row) → String → Option String → Option String → MeetingQuality
unfolding count_transcript_segments
quality_from_parts humans_seen segments leave_reason started ended = record {
  humans_seen = humans_seen;
  segment_count = count_transcript_segments segments;
  leave_reason = or_call_ended (strip (or_call_ended leave_reason));
  recording_started_at = started;
  recording_ended_at = ended;
}
