-- ===== src/Speakers.antt =====
-- Who speaks in a meeting: `SpeakerTracker` of meet/speaker_tracker.py and the attribution of
-- meet/speakers.py of src/tempa. The page, the scripts in it and the callbacks are left out.
mod Examples
pub mod Tracker
pub mod Votes
pub mod Attribution
