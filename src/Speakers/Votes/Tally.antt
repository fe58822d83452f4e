-- ===== src/Speakers/Votes/Tally.antt =====
-- The votes that were recorded, counted again.
use tempa.Base.{
  ℕ, suc, String, Bool, false, not, ◌&&◌, ◌||◌, List, [], ◌∷◌, ◌==◌, ◌≡◌, ◌<◌, ◌+◌, sym, subst, ◌∙◌,
  arith, inl, inr, if◌then◌else◌, Bool-cases, select, eq_iff,
}
use tempa.Base.Dict
use tempa.Base.Dict.{Dict, get-put, get-put_self, get-nil, IsDict, put-IsDict, IsDict-All}
use tempa.Speakers.Votes.{CorrelationMap, new_map, record_vote, resolve}
use tempa.Speakers.Votes.Majority.{
  record_votes, count_votes, votes_for, IsMajority, IsMajority-cong,
}
use tempa.Speakers.Votes.Settled.{
  tally, votes_for-add_vote, record_votes-IsSettled, threshold-record_votes, new_map-IsSettled,
}

-- A vote of both a label and a name; others are not counted.
abbrev pub is_proper : String × String → Bool
is_proper (label, name) = not (label == "" || name == "")

votes-record_vote :
    (label name l n : String) (m : CorrelationMap)
    → votes_for (tally (record_vote label name m) l) n ≡ (
        if not (label == "" || name == "") && label == l && name == n
        then suc (votes_for (tally m l) n)
        else votes_for (tally m l) n)
unfolding record_vote
votes-record_vote label name l n m = elim (Bool-cases (label == "" || name == "")) [
  | inl blank ↦ rw blank
  | inr proper ↦ elim (Bool-cases (label == l)) [
    | inl same ↦
        rw (proper, same, sym ((eq_iff label l).0 same), get-put_self)
          (votes_for-add_vote name n (tally m label))
    | inr other ↦ rw (proper, get-put, other)
  ]
]

-- The tallies count the proper votes.
votes-record_votes :
    (votes : List (String × String)) (l n : String) (m : CorrelationMap)
    → votes_for (tally (record_votes votes m) l) n
      ≡ count_votes l n (select is_proper votes) + votes_for (tally m l) n
unfolding record_votes
votes-record_votes [] l n m = omega arith
votes-record_votes ((label, name) ∷ votes) l n m = ground (
  arith,
  votes-record_votes votes l n (record_vote label name m),
  votes-record_vote label name l n m,
)

no_votes : (label name : String) (n : ℕ) → n + votes_for (tally (new_map 0) label) name ≡ n
unfolding Dict.get
no_votes label name n = omega arith

-- Whatever votes were recorded: the name that a label resolves to has the threshold of votes, and no
-- name has more; and where it resolves to none, no name has the threshold.
pub resolve-IsMajority :
    (confidence_threshold : ℕ) (votes : List (String × String)) (label : String)
    → 0 < confidence_threshold
    → (label == "") ≡ false
    → IsMajority confidence_threshold
        (λ name. count_votes label name (select is_proper votes))
        (resolve label (record_votes votes (new_map confidence_threshold)))
unfolding resolve
resolve-IsMajority threshold votes label pos named =
    let m = record_votes votes (new_map threshold) in
    let h =
      record_votes-IsSettled votes label (new_map threshold) pos
        (new_map-IsSettled threshold label pos) in
    rw named (
      IsMajority-cong threshold (votes_for (tally m label))
        (λ name. count_votes label name (select is_proper votes)) (Dict.get m.resolved label)
        (λ name.
          votes-record_votes votes label name (new_map threshold)
          ∙ no_votes label name (count_votes label name (select is_proper votes)))
        (subst (λ t. IsMajority t (votes_for (tally m label)) (Dict.get m.resolved label))
          (threshold-record_votes votes (new_map threshold)) h.1))
