-- ===== src/Speakers/Tracker.antt =====
-- `SpeakerTracker` of meet/speaker_tracker.py: the current speaker and the history of events.
pub mod Replay
use tempa.Base.{
  ℕ, String, Bool, true, false, Option, none, some, List, [], ◌∷◌, ◌++◌, ◌==◌, if◌then◌else◌, leb,
}

pub record SpeakerEvent : Type 0 where
  pub speaker_name : Option String
  pub timestamp : ℕ
  pub is_speaking : Bool
  pub detection : Option String

pub record SpeakerTracker : Type 0 where
  pub current_speaker : Option String
  pub speaker_history : List SpeakerEvent
  pub running : Bool

abbrev pub new_tracker : SpeakerTracker
new_tracker = record { current_speaker = none; speaker_history = []; running = false }

-- `a == b` of two names that may be None
abbrev pub same_name : Option String → Option String → Bool
same_name none none = true
same_name none (some b) = false
same_name (some a) none = false
same_name (some a) (some b) = a == b

-- The payload of `onSpeakerChange`; a missing `is_speaking` is true.
pub record Payload : Type 0 where
  pub speaker : Option String
  pub is_speaking : Bool
  pub detection : Option String

unfoldable pub start : SpeakerTracker → SpeakerTracker
start t = record t { running = true }

unfoldable pub stop : SpeakerTracker → SpeakerTracker
stop t = record t { running = false }

-- The new current speaker: the one who speaks, or none where that one stops.
unfoldable pub speaker_after : Bool → Option String → Option String → Option String
speaker_after true name current = name
speaker_after false name current = if same_name current name then none else current

-- `_handle_speaker_change` at a time, for a payload that is a dictionary with something in it.
unfoldable pub handle_speaker_change : Payload → (timestamp : ℕ) → SpeakerTracker → SpeakerTracker
unfolding speaker_after
handle_speaker_change p timestamp t = record t {
  current_speaker = speaker_after p.is_speaking p.speaker t.current_speaker;
  speaker_history =
      t.speaker_history
      ++ record {
        speaker_name = p.speaker;
        timestamp = timestamp;
        is_speaking = p.is_speaking;
        detection = p.detection;
      }
        ∷ [];
}

-- The loop of `get_speaker_at`, with the speaker so far.
unfoldable pub scan_history : (timestamp : ℕ) → List SpeakerEvent → Option String → Option String
scan_history timestamp [] speaker = speaker
scan_history timestamp (e ∷ events) speaker =
    let go = scan_history timestamp events (
      if e.is_speaking
      then e.speaker_name
      else if same_name speaker e.speaker_name
      then none
      else speaker) in
    if leb e.timestamp timestamp then go else speaker

unfoldable pub get_speaker_at : (timestamp : ℕ) → SpeakerTracker → Option String
get_speaker_at timestamp t = scan_history timestamp t.speaker_history none
