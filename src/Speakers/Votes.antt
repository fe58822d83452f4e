-- ===== src/Speakers/Votes.antt =====
-- `SpeakerCorrelationMap` of meet/speakers.py: votes for the names behind the labels of speakers.
pub mod Majority
pub mod Settled
pub mod Tally
use tempa.Base.{
  ℕ, suc, String, Bool, true, false, ◌||◌, Option, none, some, List, [], ◌∷◌, ◌==◌, if◌then◌else◌,
  leb, ltb,
}
use tempa.Base.Dict
use tempa.Base.Dict.{Dict}

pub record CorrelationMap : Type 0 where
  pub votes : Dict (Dict ℕ)
  pub resolved : Dict String
  pub threshold : ℕ

abbrev pub new_map : (confidence_threshold : ℕ) → CorrelationMap
new_map n = record { votes = []; resolved = []; threshold = n }

abbrev pub or_zero : Option ℕ → ℕ
or_zero none = 0
or_zero (some n) = n

abbrev pub or_empty : Option (Dict ℕ) → Dict ℕ
or_empty none = []
or_empty (some d) = d

-- `votes[name] = votes.get(name, 0) + 1`
unfoldable pub add_vote : String → Dict ℕ → Dict ℕ
add_vote name votes = Dict.put votes name (suc (or_zero (Dict.get votes name)))

-- `max` keeps the first of the names with the most votes.
unfoldable pub best_from : String × ℕ → Dict ℕ → String × ℕ
best_from best [] = best
best_from best ((name, n) ∷ votes) = best_from (if ltb best.1 n then (name, n) else best) votes

-- `self._resolved[label] = best_name`, where the best name has votes enough.
unfoldable pub settle : String → (threshold : ℕ) → Dict ℕ → Dict String → Dict String
settle label threshold [] resolved = resolved
settle label threshold ((name, n) ∷ votes) resolved =
    let best = best_from (name, n) votes in
    if leb threshold best.1 then Dict.put resolved label best.0 else resolved

unfoldable pub record_vote : (label name : String) → CorrelationMap → CorrelationMap
record_vote label name m =
    let votes = add_vote name (or_empty (Dict.get m.votes label)) in
    if label == "" || name == "" then m else record m {
      votes = Dict.put m.votes label votes;
      resolved = settle label m.threshold votes m.resolved;
    }

unfoldable pub resolve : String → CorrelationMap → Option String
resolve label m = if label == "" then none else Dict.get m.resolved label
