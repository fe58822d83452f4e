-- ===== src/MeetingEnd/Grace.antt =====
-- How long the bot stays alone, by meet/lifecycle.py: never less than the grace period after
-- it saw a human.
use tempa.Base.{
  ℕ, zero, suc, String, true, false, not, ◌&&◌, ◌||◌, Option, none, some, List, [], ◌∷◌, ◌≡◌, ◌≤◌,
  ◌+◌, ◌⊎◌, refl, sym, ◌∙◌, arith, inl, inr, All, Bool-cases, leb, leb→le,
}
use tempa.MeetingEnd.{
  MeetingEndTracker, Page, is_early, has_ended, alone_at, counted, human_count, check_meeting_ended,
}

module _ (bots : List String) (start : Option ℕ) where
  -- The tracker after some polls.
  abbrev pub poll_all : List Page → MeetingEndTracker → MeetingEndTracker
  poll_all [] t = t
  poll_all (page ∷ pages) t = poll_all pages (check_meeting_ended bots start page t).1

  -- The bot has not been alone for longer than since `seen`.
  abbrev Since : ℕ → Option ℕ → Type 0
  Since seen none = Unit
  Since seen (some since) = seen ≤ since

  -- The grace period is `grace`, and runs from `seen` at the earliest.
  abbrev IsFresh : (seen grace : ℕ) → MeetingEndTracker → Type 0
  IsFresh seen grace t = Since seen t.alone_since × (t.alone_grace_seconds ≡ grace)

  alone_at-IsFresh :
      (seen grace now : ℕ) (since : Option ℕ) (t : MeetingEndTracker)
      → seen ≤ now
      → t.alone_since ≡ since
      → IsFresh seen grace t
      → IsFresh seen grace (alone_at now since t).1
  alone_at-IsFresh seen grace now none t le e h = (le, h.1)
  alone_at-IsFresh seen grace now (some since) t le e h =
      elim (Bool-cases (leb (since + t.alone_grace_seconds) now)) [
        | inl over ↦ rw over h
        | inr early ↦ rw early h
      ]

  counted-IsFresh :
      (seen grace now : ℕ) (humans : Option ℕ) (t : MeetingEndTracker)
      → seen ≤ now
      → IsFresh seen grace t
      → IsFresh seen grace (counted now humans t).1
  counted-IsFresh seen grace now none t le h = h
  counted-IsFresh seen grace now (some zero) t le h =
      alone_at-IsFresh seen grace now t.alone_since (record t { last_human_count = some 0 }) le refl
        h
  counted-IsFresh seen grace now (some (suc n)) t le h = (tt, h.1)

  check-IsFresh :
      (seen grace : ℕ) (page : Page) (t : MeetingEndTracker)
      → seen ≤ page.monotonic
      → IsFresh seen grace t
      → IsFresh seen grace (check_meeting_ended bots start page t).1
  unfolding check_meeting_ended
  check-IsFresh seen grace page t le h = elim (Bool-cases (is_early start page)) [
    | inl early ↦ rw early (tt, h.1)
    | inr started ↦ elim (Bool-cases (has_ended page)) [
      | inl ended ↦ rw (started, ended) h
      | inr going ↦
          rw (started, going)
            (counted-IsFresh seen grace page.monotonic (human_count bots page.names) t le h)
    ]
  ]

  poll_all-IsFresh :
      (seen grace : ℕ) (pages : List Page) (t : MeetingEndTracker)
      → All (λ (page : Page). seen ≤ page.monotonic) pages
      → IsFresh seen grace t
      → IsFresh seen grace (poll_all pages t)
  poll_all-IsFresh seen grace [] t le h = h
  poll_all-IsFresh seen grace (page ∷ pages) t le h =
      poll_all-IsFresh seen grace pages (check_meeting_ended bots start page t).1 le.1
        (check-IsFresh seen grace page t le.0 h)

  -- A poll that saw a human.
  abbrev pub SawHuman : Page → Type 0
  SawHuman page = (has_ended page ≡ false) × (n : ℕ) × (human_count bots page.names ≡ some (suc n))

  human-IsFresh :
      (page : Page) (t : MeetingEndTracker)
      → SawHuman page
      → IsFresh page.monotonic t.alone_grace_seconds (check_meeting_ended bots start page t).1
  unfolding check_meeting_ended
  human-IsFresh page t (going, n, human) = elim (Bool-cases (is_early start page)) [
    | inl early ↦ rw early (tt, refl)
    | inr started ↦ rw (started, going, human) (tt, refl)
  ]

  pub alone_at_left :
      (now since : ℕ) (t : MeetingEndTracker)
      → (alone_at now (some since) t).0 ≡ leb (since + t.alone_grace_seconds) now
  alone_at_left now since t = elim (Bool-cases (leb (since + t.alone_grace_seconds) now)) [
    | inl over ↦ rw over refl
    | inr early ↦ rw early refl
  ]

  alone_at_over :
      (seen grace now : ℕ) (since : Option ℕ) (t : MeetingEndTracker)
      → Since seen since
      → t.alone_grace_seconds ≡ grace
      → (alone_at now since t).0 ≡ true
      → seen + grace ≤ now
  alone_at_over seen grace now none t h e left = absurd cc
  alone_at_over seen grace now (some since) t h e left =
      let over = leb→le _ _ (sym (alone_at_left now since t) ∙ left) in omega (arith, over, h, e)

  counted_over :
      (seen grace now : ℕ) (humans : Option ℕ) (t : MeetingEndTracker)
      → IsFresh seen grace t
      → (counted now humans t).0 ≡ true
      → seen + grace ≤ now
  counted_over seen grace now none t h left = absurd cc
  counted_over seen grace now (some zero) t h left =
      alone_at_over seen grace now t.alone_since (record t { last_human_count = some 0 }) h.0 h.1
        left
  counted_over seen grace now (some (suc n)) t h left = absurd cc

  pub check_left :
      (page : Page) (t : MeetingEndTracker)
      → (check_meeting_ended bots start page t).0 ≡ (
          not (is_early start page)
          && (has_ended page || (counted page.monotonic (human_count bots page.names) t).0))
  unfolding check_meeting_ended
  check_left page t = elim (Bool-cases (is_early start page)) [
    | inl early ↦ rw early refl
    | inr started ↦ elim (Bool-cases (has_ended page)) [
      | inl ended ↦ rw (started, ended) refl
      | inr going ↦ rw (started, going) refl
    ]
  ]

  -- After a poll that saw a human, and any later polls whatever they saw: where a poll then leaves,
  -- the page says that the call ended or the grace period since that human has passed.
  pub check_meeting_ended-human :
      (page last : Page) (pages : List Page) (t : MeetingEndTracker)
      → SawHuman page
      → All (λ (later : Page). page.monotonic ≤ later.monotonic) pages
      → (check_meeting_ended bots start last
          (poll_all pages (check_meeting_ended bots start page t).1)).0
        ≡ true
      → (has_ended last ≡ true) ⊎ (page.monotonic + t.alone_grace_seconds ≤ last.monotonic)
  check_meeting_ended-human page last pages t saw order left =
      let t' = poll_all pages (check_meeting_ended bots start page t).1 in
      let fresh =
        poll_all-IsFresh page.monotonic t.alone_grace_seconds pages
          (check_meeting_ended bots start page t).1 order (human-IsFresh page t saw) in
      let why = sym (check_left last t') ∙ left in
      elim (Bool-cases (has_ended last)) [
        | inl ended ↦ inl ended
        | inr going ↦ inr (
            counted_over page.monotonic t.alone_grace_seconds last.monotonic
              (human_count bots last.names) t' fresh (ground (arith, why, going)))
      ]
