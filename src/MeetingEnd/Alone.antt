-- ===== src/MeetingEnd/Alone.antt =====
-- That the bot leaves once the grace period has passed with no humans: meet/lifecycle.py.
use tempa.Base.{
  ℕ, String, false, Option, none, some, List, [], ◌∷◌, ◌≡◌, ◌+◌, ◌⊎◌, refl, sym, ap, subst, ◌∙◌,
  inl, inr, All, Bool-cases, leb,
}
use tempa.MeetingEnd.{
  MeetingEndTracker, Page, is_early, has_ended, alone_at, human_count, check_meeting_ended,
}
use tempa.MeetingEnd.Grace.{poll_all, check_left, alone_at_left}

module _ (bots : List String) (start : Option ℕ) where
  -- A poll of a call that goes on, with no humans counted; where they are not known, `humans` is none.
  abbrev pub SawNobody : (humans : Option ℕ) → Page → Type 0
  SawNobody humans page =
      (is_early start page ≡ false)
      × (has_ended page ≡ false)
      × (human_count bots page.names ≡ humans)

  -- The bot is alone since `since`.
  abbrev IsAlone : (since grace : ℕ) → MeetingEndTracker → Type 0
  IsAlone since grace t = (t.alone_since ≡ some since) × (t.alone_grace_seconds ≡ grace)

  alone_at-IsAlone :
      (since grace now : ℕ) (t : MeetingEndTracker)
      → IsAlone since grace t
      → IsAlone since grace (alone_at now (some since) t).1
  alone_at-IsAlone since grace now t h =
      elim (Bool-cases (leb (since + t.alone_grace_seconds) now)) [
        | inl over ↦ rw over h
        | inr early ↦ rw early h
      ]

  nobody-IsAlone :
      (since grace : ℕ) (page : Page) (t : MeetingEndTracker)
      → SawNobody none page ⊎ SawNobody (some 0) page
      → IsAlone since grace t
      → IsAlone since grace (check_meeting_ended bots start page t).1
  unfolding check_meeting_ended
  nobody-IsAlone since grace page t (inl (started, going, humans)) h = rw (started, going, humans) h
  nobody-IsAlone since grace page t (inr (started, going, humans)) h =
      let t' : MeetingEndTracker = record t { last_human_count = some 0 } in
      rw (started, going, humans)
        (subst (λ x. IsAlone since grace (alone_at page.monotonic x t').1) (sym h.0)
          (alone_at-IsAlone since grace page.monotonic t' h))

  poll_all-IsAlone :
      (since grace : ℕ) (pages : List Page) (t : MeetingEndTracker)
      → All (λ page. SawNobody none page ⊎ SawNobody (some 0) page) pages
      → IsAlone since grace t
      → IsAlone since grace (poll_all bots start pages t)
  poll_all-IsAlone since grace [] t saw h = h
  poll_all-IsAlone since grace (page ∷ pages) t saw h =
      poll_all-IsAlone since grace pages (check_meeting_ended bots start page t).1 saw.1
        (nobody-IsAlone since grace page t saw.0 h)

  begin-IsAlone :
      (page : Page) (t : MeetingEndTracker)
      → t.alone_since ≡ none
      → SawNobody (some 0) page
      → IsAlone page.monotonic t.alone_grace_seconds (check_meeting_ended bots start page t).1
  unfolding check_meeting_ended
  begin-IsAlone page t fresh (started, going, humans) =
      rw (started, going, humans, fresh) (refl, refl)

  -- From the poll that first finds the bot alone, while no human is counted: a poll that counts the
  -- humans leaves exactly where the grace period has passed.
  pub check_meeting_ended-alone :
      (first last : Page) (pages : List Page) (t : MeetingEndTracker)
      → t.alone_since ≡ none
      → SawNobody (some 0) first
      → All (λ page. SawNobody none page ⊎ SawNobody (some 0) page) pages
      → SawNobody (some 0) last
      → (check_meeting_ended bots start last
          (poll_all bots start pages (check_meeting_ended bots start first t).1)).0
        ≡ leb (first.monotonic + t.alone_grace_seconds) last.monotonic
  check_meeting_ended-alone first last pages t fresh alone later (started, going, humans) =
      let t' = poll_all bots start pages (check_meeting_ended bots start first t).1 in
      let h =
        poll_all-IsAlone first.monotonic t.alone_grace_seconds pages
          (check_meeting_ended bots start first t).1 later (begin-IsAlone first t fresh alone) in
      let counted' : MeetingEndTracker = record t' { last_human_count = some 0 } in
      check_left bots start last t'
      ∙ rw (started, going, humans)
          (ap (λ x. (alone_at last.monotonic x counted').0) h.0
            ∙ alone_at_left bots start last.monotonic first.monotonic counted'
            ∙ ap (λ grace. leb (first.monotonic + grace) last.monotonic) h.1)
