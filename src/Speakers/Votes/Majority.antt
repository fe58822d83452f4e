-- ===== src/Speakers/Votes/Majority.antt =====
-- The name that a label resolves to has the majority of the votes for the label.
use tempa.Base.{
  ℕ, suc, String, true, false, ◌&&◌, Option, none, some, List, [], ◌∷◌, ◌==◌, ◌≡◌, ◌≤◌, ◌<◌, ap,
  arith, inl, inr, if◌then◌else◌, leb, ltb, Bool-cases, ltb→lt, leb→le, All,
}
use tempa.Base.Dict
use tempa.Base.Dict.{Dict, get-put, get-put_self, get-nil, IsDict, put-IsDict, IsDict-All}
use tempa.Speakers.Votes.{CorrelationMap, or_zero, best_from, settle, record_vote}

-- Votes in their order: a label and a name each.
unfoldable pub record_votes : List (String × String) → CorrelationMap → CorrelationMap
record_votes [] m = m
record_votes ((label, name) ∷ votes) m = record_votes votes (record_vote label name m)

-- How often the name was voted for under the label.
abbrev pub count_votes : (label name : String) → List (String × String) → ℕ
count_votes label name [] = 0
count_votes label name ((l, n) ∷ votes) =
    let rest = count_votes label name votes in if l == label && n == name then suc rest else rest

abbrev pub votes_for : Dict ℕ → String → ℕ
votes_for d name = or_zero (Dict.get d name)

best_more :
    (best : String × ℕ) (name : String) (n : ℕ) (d : Dict ℕ)
    → ltb best.1 n ≡ true
    → best_from best ((name, n) ∷ d) ≡ best_from (name, n) d
unfolding best_from
best_more best name n d h = rw h

best_less :
    (best : String × ℕ) (name : String) (n : ℕ) (d : Dict ℕ)
    → ltb best.1 n ≡ false
    → best_from best ((name, n) ∷ d) ≡ best_from best d
unfolding best_from
best_less best name n d h = rw h

-- The best of a dictionary has at least the votes of each name.
best-ge : (best : String × ℕ) (d : Dict ℕ) → best.1 ≤ (best_from best d).1
best-ge best [] = unfold best_from in omega arith
best-ge best ((name, n) ∷ d) = elim (Bool-cases (ltb best.1 n)) [
  | inl more ↦
      rw (best_more best name n d more) (omega (arith, best-ge (name, n) d, ltb→lt best.1 n more))
  | inr less ↦ rw (best_less best name n d less) (best-ge best d)
]

ltb-false : (a b : ℕ) → ltb a b ≡ false → b ≤ a
ltb-false a b h = ground arith

best_max :
    (best : String × ℕ) (d : Dict ℕ) (name : String) → votes_for d name ≤ (best_from best d).1
unfolding Dict.get
best_max best [] name = omega arith
best_max best ((j, n) ∷ d) name = elim (Bool-cases (j == name)) [
  | inl same ↦ rw same (elim (Bool-cases (ltb best.1 n)) [
    | inl more ↦ rw (best_more best j n d more) (best-ge (j, n) d)
    | inr less ↦
        rw (best_less best j n d less) (omega (arith, best-ge best d, ltb-false best.1 n less))
  ])
  | inr apart ↦ rw apart (elim (Bool-cases (ltb best.1 n)) [
    | inl more ↦ rw (best_more best j n d more) (best_max (j, n) d name)
    | inr less ↦ rw (best_less best j n d less) (best_max best d name)
  ])
]

-- What holds of the first and of each entry holds of the best.
best-All {ℓ} :
    (P : String × ℕ → Type ℓ) (best : String × ℕ) (d : Dict ℕ)
    → P best
    → All P d
    → P (best_from best d)
unfolding best_from
best-All P best [] p h = p
best-All P best ((name, n) ∷ d) p h = elim (Bool-cases (ltb best.1 n)) [
  | inl more ↦ rw more (best-All P (name, n) d h.0 h.1)
  | inr less ↦ rw less (best-All P best d p h.1)
]

-- A name with votes enough, and no fewer than any other; or no name, where none has enough.
abbrev pub IsMajority : (threshold : ℕ) → (String → ℕ) → Option String → Type 0
IsMajority threshold f none = (n : String) → f n < threshold
IsMajority threshold f (some name) = (threshold ≤ f name) × ((n : String) → f n ≤ f name)

pub IsMajority-cong :
    (threshold : ℕ) (f g : String → ℕ) (r : Option String)
    → ((n : String) → f n ≡ g n)
    → IsMajority threshold f r
    → IsMajority threshold g r
IsMajority-cong threshold f g none e h = λ n. omega (arith, e n, h n)
IsMajority-cong threshold f g (some name) e h =
    (omega (arith, e name, h.0), λ n. omega (arith, e n, e name, h.1 n))

-- Where the best has too few votes, a majority of fewer votes was none.
IsMajority-grows :
    (threshold : ℕ) (f g : String → ℕ) (r : Option String)
    → ((n : String) → f n ≤ g n)
    → ((n : String) → g n < threshold)
    → IsMajority threshold f r
    → IsMajority threshold g r
IsMajority-grows threshold f g none grows few h = few
IsMajority-grows threshold f g (some name) grows few h =
    absurd (omega (arith, h.0, grows name, few name))

whole_max :
    (name : String) (n : ℕ) (d : Dict ℕ) (m : String)
    → votes_for ((name, n) ∷ d) m ≤ (best_from (name, n) d).1
unfolding Dict.get
whole_max name n d m = elim (Bool-cases (name == m)) [
  | inl same ↦ rw same (best-ge (name, n) d)
  | inr apart ↦ rw apart (best_max (name, n) d m)
]

best_votes :
    (name : String) (n : ℕ) (d : Dict ℕ)
    → IsDict ((name, n) ∷ d)
    → votes_for ((name, n) ∷ d) (best_from (name, n) d).0 ≡ (best_from (name, n) d).1
best_votes name n d h =
    let a = IsDict-All ((name, n) ∷ d) h in
    ap or_zero
      (best-All (λ (e : String × ℕ). Dict.get ((name, n) ∷ d) e.0 ≡ some e.1) (name, n) d a.0 a.1)

leb-false : (a b : ℕ) → leb a b ≡ false → b < a
leb-false a b h = ground arith

-- Settling a label with its new votes keeps the majority.
pub settle-IsMajority :
    (label : String) (threshold : ℕ) (old new : Dict ℕ) (resolved : Dict String)
    → 0 < threshold
    → IsDict new
    → ((n : String) → votes_for old n ≤ votes_for new n)
    → IsMajority threshold (votes_for old) (Dict.get resolved label)
    → IsMajority threshold (votes_for new) (Dict.get (settle label threshold new resolved) label)
unfolding settle
settle-IsMajority label threshold old [] resolved pos d grows h =
    IsMajority-grows threshold (votes_for old) (votes_for []) (Dict.get resolved label) grows
      (λ n. unfold Dict.get in pos) h
settle-IsMajority label threshold old ((name, n) ∷ new) resolved pos d grows h =
    elim (Bool-cases (leb threshold (best_from (name, n) new).1)) [
      | inl enough ↦
          rw (enough, get-put_self)
            (
              omega (arith, leb→le threshold _ enough, best_votes name n new d),
              λ m. omega (arith, whole_max name n new m, best_votes name n new d),
            )
      | inr short ↦ rw short (
          IsMajority-grows threshold (votes_for old) (votes_for ((name, n) ∷ new))
            (Dict.get resolved label) grows
            (λ m. omega (arith, whole_max name n new m, leb-false threshold _ short)) h)
    ]
