-- ===== src/Speakers/Votes/Settled.antt =====
-- That the names which are settled on have the majority after each vote: meet/speakers.py.
use tempa.Base.{
  ℕ, suc, String, false, ◌||◌, List, [], ◌∷◌, ◌==◌, ◌≡◌, ◌≤◌, ◌<◌, refl, sym, subst, ◌∙◌, arith,
  inl, inr, if◌then◌else◌, leb, Bool-cases, eq_iff,
}
use tempa.Base.Dict
use tempa.Base.Dict.{Dict, get-put, get-put_self, get-nil, IsDict, put-IsDict, IsDict-All}
use tempa.Speakers.Votes.{
  CorrelationMap, new_map, or_empty, add_vote, best_from, settle, record_vote,
}
use tempa.Speakers.Votes.Majority.{record_votes, votes_for, IsMajority, settle-IsMajority}

abbrev pub tally : CorrelationMap → String → Dict ℕ
tally m label = or_empty (Dict.get m.votes label)

-- The invariant, for a label.
abbrev pub IsSettled : CorrelationMap → String → Type 0
IsSettled m label =
    IsDict (tally m label)
    × IsMajority m.threshold (votes_for (tally m label)) (Dict.get m.resolved label)

pub votes_for-add_vote :
    (name n : String) (d : Dict ℕ)
    → votes_for (add_vote name d) n ≡ (if name == n then suc (votes_for d n) else votes_for d n)
unfolding add_vote
votes_for-add_vote name n d =
    ground (arith, get-put d name n (suc (votes_for d name)), eq_iff name n)

add_vote-grows : (name n : String) (d : Dict ℕ) → votes_for d n ≤ votes_for (add_vote name d) n
add_vote-grows name n d = elim (Bool-cases (name == n)) [
  | inl same ↦ rw (votes_for-add_vote name n d, same) (omega arith)
  | inr apart ↦ rw (votes_for-add_vote name n d, apart) (omega arith)
]

add_vote-IsDict : (name : String) (d : Dict ℕ) → IsDict d → IsDict (add_vote name d)
unfolding add_vote
add_vote-IsDict name d h = put-IsDict d name (suc (votes_for d name)) h

settle_other :
    (label other : String) (threshold : ℕ) (d : Dict ℕ) (resolved : Dict String)
    → (label == other) ≡ false
    → Dict.get (settle label threshold d resolved) other ≡ Dict.get resolved other
unfolding settle
settle_other label other threshold [] resolved h = refl
settle_other label other threshold ((name, n) ∷ d) resolved h =
    elim (Bool-cases (leb threshold (best_from (name, n) d).1)) [
      | inl enough ↦ rw (enough, get-put, h)
      | inr short ↦ rw short
    ]

settled_self :
    (label name : String) (m : CorrelationMap)
    → 0 < m.threshold
    → IsSettled m label
    → IsDict (add_vote name (tally m label))
      × IsMajority m.threshold
          (votes_for (add_vote name (tally m label)))
          (Dict.get (settle label m.threshold (add_vote name (tally m label)) m.resolved) label)
settled_self label name m pos h =
    let d = add_vote-IsDict name (tally m label) h.0 in
    (
      d,
      settle-IsMajority label m.threshold (tally m label) (add_vote name (tally m label)) m.resolved
          pos d (λ n. add_vote-grows name n (tally m label)) h.1,
    )

record_vote-IsSettled :
    (label name l : String) (m : CorrelationMap)
    → 0 < m.threshold
    → IsSettled m l
    → IsSettled (record_vote label name m) l
unfolding record_vote
record_vote-IsSettled label name l m pos h = elim (Bool-cases (label == "" || name == "")) [
  | inl blank ↦ rw blank h
  | inr proper ↦ elim (Bool-cases (label == l)) [
    | inl same ↦
        rw (proper, sym ((eq_iff label l).0 same), get-put_self)
          (settled_self label name m pos (subst (IsSettled m) (sym ((eq_iff label l).0 same)) h))
    | inr other ↦ rw (proper, get-put, other, settle_other label l _ _ _ other) h
  ]
]

threshold-record_vote :
    (label name : String) (m : CorrelationMap) → (record_vote label name m).threshold ≡ m.threshold
unfolding record_vote
threshold-record_vote label name m = elim (Bool-cases (label == "" || name == "")) [
  | inl blank ↦ rw blank
  | inr proper ↦ rw proper
]

pub record_votes-IsSettled :
    (votes : List (String × String)) (l : String) (m : CorrelationMap)
    → 0 < m.threshold
    → IsSettled m l
    → IsSettled (record_votes votes m) l
unfolding record_votes
record_votes-IsSettled [] l m pos h = h
record_votes-IsSettled ((label, name) ∷ votes) l m pos h =
    record_votes-IsSettled votes l (record_vote label name m) (rw threshold-record_vote pos)
      (record_vote-IsSettled label name l m pos h)

pub threshold-record_votes :
    (votes : List (String × String)) (m : CorrelationMap)
    → (record_votes votes m).threshold ≡ m.threshold
unfolding record_votes
threshold-record_votes [] m = refl
threshold-record_votes ((label, name) ∷ votes) m =
    threshold-record_votes votes (record_vote label name m) ∙ threshold-record_vote label name m

pub new_map-IsSettled :
    (threshold : ℕ) (label : String) → 0 < threshold → IsSettled (new_map threshold) label
unfolding Dict.get
new_map-IsSettled threshold label pos = (tt, λ n. pos)
