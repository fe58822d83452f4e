-- ===== src/Speakers/Examples.antt =====
-- A short meeting of two speakers.
use tempa.Base.{ℕ, String, true, false, none, some, List, [], ◌∷◌, ◌≡◌, refl, arith, select}
use tempa.Speakers.Tracker.{Payload, new_tracker, get_speaker_at}
use tempa.Speakers.Tracker.Replay.{handle_all, current-get_speaker_at}
use tempa.Speakers.Votes.{new_map, resolve}
use tempa.Speakers.Votes.Majority.{record_votes, count_votes, IsMajority}
use tempa.Speakers.Votes.Tally.{is_proper, resolve-IsMajority}

abbrev payloads : List (Payload × ℕ)
payloads =
    (record { speaker = some "Ada"; is_speaking = true; detection = some "dom" }, 30)
    ∷ (record { speaker = some "Bob"; is_speaking = true; detection = none }, 20)
    ∷ (record { speaker = some "Ada"; is_speaking = false; detection = some "dom" }, 40)
    ∷ []

current-get_speaker_at_example :
    (handle_all payloads new_tracker).current_speaker
    ≡ get_speaker_at 40 (handle_all payloads new_tracker)
current-get_speaker_at_example =
    current-get_speaker_at 40 payloads (omega arith, (omega arith, (omega arith, tt)))

abbrev votes : List (String × String)
votes = ("0", "Ada") ∷ ("0", "Bob") ∷ ("1", "Bob") ∷ ("0", "") ∷ ("0", "Bob") ∷ ("0", "Bob") ∷ []

resolve-IsMajority_example :
    IsMajority 3
      (λ name. count_votes "0" name (select is_proper votes))
      (resolve "0" (record_votes votes (new_map 3)))
resolve-IsMajority_example = resolve-IsMajority 3 votes "0" (omega arith) refl
