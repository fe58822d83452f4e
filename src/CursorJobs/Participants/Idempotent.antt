-- ===== src/CursorJobs/Participants/Idempotent.antt =====
-- Adding the same participants twice changes nothing the second time.
use tempa.Base.{
  ℕ, zero, suc, String, Bool, true, false, not, ◌&&◌, ◌||◌, ◌≡◌, refl, sym, ◌∙◌, ap, List, [], ◌∷◌,
  ◌++◌, arith, eq_iff, ◌==◌, eq_refl, inl, inr, Bool-cases, All, contains, select, contains-append,
}
use tempa.Base.Text.{strip, strip_idem}
use tempa.Base.Dict
use tempa.Base.Dict.{Dict, dict_laws, get-put}
use tempa.Base.Value.{Row, str_or}
use tempa.Disk.{Disk, read_statuses}
use tempa.CursorJobs.{stripped, lead, ids_of, in_thread}
use tempa.CursorJobs.Participants.{
  merge_from, merge_participant_ids, same_ids, with_id, starter_of, starter_first, joined_row,
  join_rows, add_thread_participants, write_changed, is_nil,
}
use tempa.CursorJobs.Participants.Clean.{
  IsSolid, NoRepeat, IsClean, IsClean-merge_from, merge_from-append, merge_absorbed, merge_clean,
  same_ids_refl,
}

abbrev others : String → List String → List String
others s xs = select (λ u. not (u == s)) xs

contains-others :
    (s : String) (xs : List String) (u : String)
    → contains (others s xs) u ≡ (not (u == s) && contains xs u)
contains-others s [] u = ground arith
contains-others s (x ∷ xs) u =
    ground (arith, contains-others s xs u, eq_iff x s, eq_iff x u, eq_iff u s)

NoRepeat-others : (s : String) (xs : List String) → NoRepeat xs → NoRepeat (others s xs)
NoRepeat-others s [] h = tt
NoRepeat-others s (x ∷ xs) h = elim (Bool-cases (x == s)) [
  | inl same ↦ rw same (NoRepeat-others s xs h.1)
  | inr other ↦
      rw other (rw (contains-others s xs x) (ground (arith, h.0)), NoRepeat-others s xs h.1)
]

All-others : (s : String) (xs : List String) → All IsSolid xs → All IsSolid (others s xs)
All-others s [] h = tt
All-others s (x ∷ xs) h = elim (Bool-cases (x == s)) [
  | inl same ↦ rw same (All-others s xs h.1)
  | inr other ↦ rw other (h.0, All-others s xs h.1)
]

others_idem : (s : String) (xs : List String) → others s (others s xs) ≡ others s xs
others_idem s [] = refl
others_idem s (x ∷ xs) = ground (arith, others_idem s xs)

module _ (s : String) (solid : strip s ≡ s) where
  pub IsClean-starter_first : (g : List String) → IsClean g → IsClean (starter_first s g)
  unfolding starter_first lead
  IsClean-starter_first g h = elim (Bool-cases (not (s == "") && contains g s)) [
    | inl here ↦ rw here (record {
      solid = ((solid, ground (arith, here)), All-others s g h.solid);
      distinct = (rw (contains-others s g s) (rw (eq_refl s)), NoRepeat-others s g h.distinct);
    })
    | inr away ↦ rw away h
  ]

contains-starter_first :
    (s : String) (g : List String) (u : String) → contains (starter_first s g) u ≡ contains g u
unfolding starter_first lead
contains-starter_first s g u = elim (Bool-cases (not (s == "") && contains g s)) [
  | inl here ↦ rw here (ground (arith, contains-others s g u, here, eq_iff s u, eq_iff u s))
  | inr away ↦ rw away
]

starter_first_idem :
    (s : String) (g : List String) → starter_first s (starter_first s g) ≡ starter_first s g
unfolding starter_first lead
starter_first_idem s g = elim (Bool-cases (not (s == "") && contains g s)) [
  | inl here ↦ rw here (ground (arith, here, eq_refl s, others_idem s g))
  | inr away ↦ rw (away, away)
]

merge_keeps :
    (acc xs : List String) (u : String)
    → contains acc u ≡ true
    → contains (merge_from acc xs) u ≡ true
unfolding merge_from
merge_keeps acc [] u h = h
merge_keeps acc (x ∷ xs) u h =
    merge_keeps (with_id acc (strip x)) xs u
      (elim (Bool-cases (strip x == "" || contains acc (strip x))) [
        | inl old ↦ rw old h
        | inr new ↦ rw (new, contains-append, h)
      ])

or_true : (b c : Bool) → (b ≡ false → c ≡ true) → (b || c) ≡ true
or_true true c h = refl
or_true false c h = h refl

contains-with_id :
    (acc : List String) (v : String) → (v == "") ≡ false → contains (with_id acc v) v ≡ true
contains-with_id acc v named = elim (Bool-cases (contains acc v)) [
  | inl old ↦ rw (named, old) old
  | inr new ↦ rw (named, new, contains-append) (ground (arith, eq_refl v))
]

-- Everything that was merged in is there afterwards.
merge_has :
    (acc xs : List String)
    → All (λ u. (strip u == "" || contains (merge_from acc xs) (strip u)) ≡ true) xs
unfolding merge_from
merge_has acc [] = tt
merge_has acc (x ∷ xs) = (
  or_true _ _ (λ named.
      merge_keeps (with_id acc (strip x)) xs (strip x) (contains-with_id acc (strip x) named)),
  merge_has (with_id acc (strip x)) xs,
)

All-transfer :
    (xs g m : List String)
    → ((u : String) → contains m u ≡ contains g u)
    → All (λ u. (strip u == "" || contains g (strip u)) ≡ true) xs
    → All (λ u. (strip u == "" || contains m (strip u)) ≡ true) xs
All-transfer [] g m same h = tt
All-transfer (x ∷ xs) g m same h = (rw (same (strip x)) h.0, All-transfer xs g m same h.1)

AreNew-nil : (xs : List String) → All (λ x. contains [] x ≡ false) xs
AreNew-nil [] = tt
AreNew-nil (x ∷ xs) = (refl, AreNew-nil xs)

-- What a row of a starter `s` holds once `incoming` has joined its participants `old`.
abbrev joined : String → List String → List String → List String
joined s old incoming = starter_first s (merge_participant_ids old incoming)

module _ (s : String) (solid : strip s ≡ s) (old incoming : List String) where
  joined-IsClean : IsClean (joined s old incoming)
  unfolding merge_participant_ids
  joined-IsClean =
      IsClean-starter_first s solid _
        (IsClean-merge_from [] (old ++ incoming) (record { solid = tt; distinct = tt }))

  joined_has :
      All (λ u. (strip u == "" || contains (joined s old incoming) (strip u)) ≡ true) incoming
  unfolding merge_participant_ids
  joined_has =
      All-transfer incoming (merge_from [] (old ++ incoming)) (joined s old incoming)
        (contains-starter_first s (merge_from [] (old ++ incoming)))
        (rw merge_from-append (merge_has (merge_from [] old) incoming))

  merge_again : merge_participant_ids (joined s old incoming) incoming ≡ joined s old incoming
  unfolding merge_participant_ids
  merge_again =
      merge_from-append [] (joined s old incoming) incoming
      ∙ ap (λ acc. merge_from acc incoming)
          (merge_clean [] (joined s old incoming) joined-IsClean (AreNew-nil _))
      ∙ merge_absorbed (joined s old incoming) incoming joined_has

  joined_idem : joined s (joined s old incoming) incoming ≡ joined s old incoming
  joined_idem = ap (starter_first s) merge_again ∙ starter_first_idem s _

starter_solid : (r : Row) → strip (starter_of r) ≡ starter_of r
starter_solid r = strip_idem (str_or (Dict.get r "user_id"))

-- A row that has been joined is not changed by joining it again.
joined_row_again :
    (now later : ℕ) (incoming : List String) (r : Row)
    → (joined_row later incoming (joined_row now incoming r).0).1 ≡ false
unfolding joined_row
joined_row_again now later incoming r =
    elim (Bool-cases (same_ids (joined (starter_of r) old incoming) old)) [
      | inl same ↦ rw (same, same)
      | inr changed ↦ rw changed (
          simp dict_laws
            (rw (joined_idem (starter_of r) (starter_solid r) old incoming) (rw same_ids_refl)))
    ]
  where
    old : List String
    old = ids_of (Dict.get r "participant_ids")

in_thread-joined_row :
    (ch ts : String) (now : ℕ) (incoming : List String) (r : Row)
    → in_thread ch ts (joined_row now incoming r).0 ≡ in_thread ch ts r
unfolding joined_row
in_thread-joined_row ch ts now incoming r =
    elim (Bool-cases (same_ids (joined (starter_of r) old incoming) old)) [
      | inl same ↦ rw same
      | inr changed ↦ rw changed (simp dict_laws)
    ]
  where
    old : List String
    old = ids_of (Dict.get r "participant_ids")

join_rows_again :
    (now later : ℕ) (ch ts : String) (incoming : List String) (rows : Dict Row)
    → (join_rows later ch ts incoming (join_rows now ch ts incoming rows).0).1 ≡ 0
unfolding join_rows
join_rows_again now later ch ts incoming [] = refl
join_rows_again now later ch ts incoming ((k, r) ∷ rows) = elim (Bool-cases (in_thread ch ts r)) [
  | inl here ↦
      rw (here, in_thread-joined_row, here, joined_row_again now later incoming r)
        (join_rows_again now later ch ts incoming rows)
  | inr away ↦ rw (away, away) (join_rows_again now later ch ts incoming rows)
]

-- Where no row changed, the rows are as they were.
join_rows_unchanged :
    (now : ℕ) (ch ts : String) (incoming : List String) (rows : Dict Row)
    → (join_rows now ch ts incoming rows).1 ≡ 0
    → (join_rows now ch ts incoming rows).0 ≡ rows
unfolding join_rows joined_row
join_rows_unchanged now ch ts incoming [] h = refl
join_rows_unchanged now ch ts incoming ((k, r) ∷ rows) h =
    ground (arith, join_rows_unchanged now ch ts incoming rows)

read-write_changed :
    (n : ℕ) (rows : Dict Row) (d : Disk)
    → (n ≡ 0 → rows ≡ read_statuses d)
    → read_statuses (write_changed n rows d) ≡ rows
read-write_changed zero rows d h = sym (h refl)
read-write_changed (suc n) rows d h = refl

-- A second call with the same participants updates no job and leaves the disk as the first left it.
pub add_thread_participants_again :
    (channel_id thread_ts : String) (user_ids : List String) (now later : ℕ) (d : Disk)
    → add_thread_participants channel_id thread_ts user_ids later
        (add_thread_participants channel_id thread_ts user_ids now d).1
      ≡ (0, (add_thread_participants channel_id thread_ts user_ids now d).1)
unfolding add_thread_participants
add_thread_participants_again channel_id thread_ts user_ids now later d =
    elim (Bool-cases (ch == "" || ts == "" || is_nil incoming)) [
      | inl skip ↦ rw skip
      | inr go ↦ rw go (rw (read, none_left))
    ]
  where
    ch : String
    ch = strip channel_id

    ts : String
    ts = strip thread_ts

    incoming : List String
    incoming = stripped user_ids

    first : Dict Row × ℕ
    first = join_rows now ch ts incoming (read_statuses d)

    read : read_statuses (write_changed first.1 first.0 d) ≡ first.0
    read =
        read-write_changed first.1 first.0 d
          (join_rows_unchanged now ch ts incoming (read_statuses d))

    none_left : (join_rows later ch ts incoming first.0).1 ≡ 0
    none_left = join_rows_again now later ch ts incoming (read_statuses d)
