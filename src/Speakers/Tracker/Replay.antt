-- ===== src/Speakers/Tracker/Replay.antt =====
-- The current speaker is what a replay of the history gives.
use tempa.Base.{
  ℕ, String, Bool, true, false, Option, none, List, [], ◌∷◌, ◌++◌, ◌≡◌, ◌≤◌, refl, ap,
  if◌then◌else◌, le→leb, All,
}
use tempa.Speakers.Tracker.{
  SpeakerEvent, SpeakerTracker, new_tracker, Payload, same_name, speaker_after,
  handle_speaker_change, scan_history, get_speaker_at,
}

-- The payloads in their order, each with the time at which it comes.
unfoldable pub handle_all : List (Payload × ℕ) → SpeakerTracker → SpeakerTracker
handle_all [] t = t
handle_all ((p, timestamp) ∷ payloads) t = handle_all payloads (handle_speaker_change p timestamp t)

abbrev IsUpTo : ℕ → List SpeakerEvent → Type 0
IsUpTo now events = All (λ (e : SpeakerEvent). e.timestamp ≤ now) events

after_if :
    (speaking : Bool) (name current : Option String)
    → (if speaking then name else if same_name current name then none else current)
      ≡ speaker_after speaking name current
unfolding speaker_after
after_if true name current = refl
after_if false name current = refl

-- At a time after all events the loop reads them all.
scan-snoc :
    (now : ℕ) (events : List SpeakerEvent) (e : SpeakerEvent) (speaker : Option String)
    → IsUpTo now events
    → e.timestamp ≤ now
    → scan_history now (events ++ e ∷ []) speaker
      ≡ speaker_after e.is_speaking e.speaker_name (scan_history now events speaker)
unfolding scan_history speaker_after
scan-snoc now [] e speaker h le =
    rw (le→leb e.timestamp now le) (after_if e.is_speaking e.speaker_name speaker)
scan-snoc now (f ∷ events) e speaker h le =
    rw (le→leb f.timestamp now h.0) (scan-snoc now events e _ h.1 le)

-- The invariant: the current speaker is the replay at any time after the history.
abbrev IsReplay : ℕ → SpeakerTracker → Type 0
IsReplay now t =
    IsUpTo now t.speaker_history × (t.current_speaker ≡ scan_history now t.speaker_history none)

All-snoc :
    (now : ℕ) (events : List SpeakerEvent) (e : SpeakerEvent)
    → IsUpTo now events
    → e.timestamp ≤ now
    → IsUpTo now (events ++ e ∷ [])
All-snoc now [] e h le = (le, tt)
All-snoc now (f ∷ events) e h le = (h.0, All-snoc now events e h.1 le)

abbrev event_of : Payload → ℕ → SpeakerEvent
event_of p timestamp = record {
  speaker_name = p.speaker;
  timestamp = timestamp;
  is_speaking = p.is_speaking;
  detection = p.detection;
}

handle_all-IsReplay :
    (now : ℕ) (payloads : List (Payload × ℕ)) (t : SpeakerTracker)
    → All (λ (p : Payload × ℕ). p.1 ≤ now) payloads
    → IsReplay now t
    → IsReplay now (handle_all payloads t)
unfolding handle_all handle_speaker_change
handle_all-IsReplay now [] t le h = h
handle_all-IsReplay now ((p, timestamp) ∷ payloads) t le h =
    handle_all-IsReplay now payloads (handle_speaker_change p timestamp t) le.1 (
      All-snoc now t.speaker_history (event_of p timestamp) h.0 le.0,
      rw (scan-snoc now t.speaker_history (event_of p timestamp) none h.0 le.0)
          (ap (speaker_after p.is_speaking p.speaker) h.1),
    )

-- Whatever payloads came, in whatever order of their times, the current speaker is the speaker that
-- the history has at any time that none of them is later than.
pub current-get_speaker_at :
    (now : ℕ) (payloads : List (Payload × ℕ))
    → All (λ (p : Payload × ℕ). p.1 ≤ now) payloads
    → (handle_all payloads new_tracker).current_speaker
      ≡ get_speaker_at now (handle_all payloads new_tracker)
unfolding get_speaker_at scan_history
current-get_speaker_at now payloads le =
    (handle_all-IsReplay now payloads new_tracker le (tt, refl)).1
