-- ===== src/Speakers/Attribution.antt =====
-- The adapters of meet/speakers.py that attribute a segment to a speaker.
use Prim.Native.String.{◌++◌}
use tempa.Base.{String, Bool, false, not, ◌&&◌, Option, none, some, ◌==◌, if◌then◌else◌}
use tempa.Base.Text.{starts_with}
use tempa.Speakers.Votes.{CorrelationMap, record_vote, resolve}

-- What the adapters read of a `TranscriptSegment`.
pub record Segment : Type 0 where
  pub speaker : Option String
  pub is_final : Bool

-- `DOMSpeakerAttribution`, from the tracker's current speaker
abbrev pub dom_speaker : Option String → Segment → Option String
dom_speaker current segment = current

-- `STTDiarizationAttribution`
abbrev pub stt_speaker : Segment → Option String
stt_speaker segment = segment.speaker

abbrev is_truthy : Option String → Bool
is_truthy none = false
is_truthy (some s) = not (s == "")

abbrev is_named : Option String → Bool
is_named none = false
is_named (some s) = not (starts_with s "stream_")

-- `HybridAttribution`
unfoldable pub hybrid_speaker : Option String → Segment → Option String
hybrid_speaker tracked segment =
    if is_named tracked
    then tracked
    else if is_truthy segment.speaker
    then segment.speaker
    else tracked

abbrev text_of : Option String → String
text_of none = ""
text_of (some s) = s

-- The vote of `CorrelationSpeakerAttribution` for a final segment with a label while one speaks.
unfoldable pub vote_for : (active : Option String) → Segment → CorrelationMap → CorrelationMap
vote_for active segment m =
    if is_truthy segment.speaker && is_truthy active && segment.is_final
    then record_vote (text_of segment.speaker) (text_of active) m
    else m

abbrev label_or : Option String → Option String → Option String
label_or label active = if is_truthy label then some ("Speaker " ++ text_of label) else active

-- `CorrelationSpeakerAttribution.get_speaker_for_segment`
unfoldable pub correlated_speaker :
    (active : Option String) → Segment → CorrelationMap → Option String × CorrelationMap
unfolding vote_for
correlated_speaker active segment m =
    let m' = vote_for active segment m in
    let resolved = resolve (text_of segment.speaker) m' in
    ((if is_truthy resolved then resolved else label_or segment.speaker active), m')
