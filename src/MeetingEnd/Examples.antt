-- ===== src/MeetingEnd/Examples.antt =====
-- A call that Ada leaves while a note taker stays.
use tempa.Base.{
  ℕ, String, true, false, Option, none, some, List, [], ◌∷◌, ◌≡◌, ◌⊎◌, ◌≤◌, ◌+◌, refl, arith, inl,
  leb,
}
use tempa.Base.Match.{includes_fold}
use tempa.Base.Text.{strip}
use tempa.MeetingEnd.{
  MeetingEndTracker, Page, default_bot_substrings, has_ended, check_meeting_ended, is_meeting_bot,
  count_humans,
}
use tempa.MeetingEnd.Grace.{poll_all, SawHuman, check_meeting_ended-human}
use tempa.MeetingEnd.Alone.{check_meeting_ended-alone, SawNobody}

abbrev page_at : (names : Option (List String)) (monotonic : ℕ) → Page
page_at names monotonic = record {
  count = λ selector. some 0;
  leave_count = some 1;
  url = "https://meet.google.com/abc";
  names = names;
  wall = 0;
  monotonic = monotonic;
}

abbrev tracker : MeetingEndTracker
tracker = record {
  alone_since = none;
  humans_seen = false;
  alone_grace_seconds = 300;
  last_human_count = none;
  leave_reason = none;
}

abbrev with_ada : Page
with_ada = page_at (some ("Ada" ∷ "Ada's Notetaker" ∷ [])) 10

abbrev deserted : ℕ → Page
deserted monotonic = page_at (some ("Ada's Notetaker" ∷ [])) monotonic

saw_ada : SawHuman default_bot_substrings none with_ada
unfolding has_ended count_humans is_meeting_bot strip includes_fold
saw_ada = (refl, 0, refl)

deserted-SawNobody :
    (monotonic : ℕ) → SawNobody default_bot_substrings none (some 0) (deserted monotonic)
unfolding has_ended count_humans is_meeting_bot strip includes_fold
deserted-SawNobody monotonic = (refl, refl, refl)

hidden-SawNobody : SawNobody default_bot_substrings none none (page_at none 90)
unfolding has_ended
hidden-SawNobody = (refl, refl, refl)

check_meeting_ended-alone_example :
    (check_meeting_ended default_bot_substrings none (deserted 360) (
      poll_all default_bot_substrings none
        (page_at none 90 ∷ [])
        (check_meeting_ended default_bot_substrings none (deserted 60) tracker).1)).0
    ≡ leb (60 + 300) 360
check_meeting_ended-alone_example =
    check_meeting_ended-alone default_bot_substrings none (deserted 60) (deserted 360)
      (page_at none 90 ∷ []) tracker refl (deserted-SawNobody 60) (inl hidden-SawNobody, tt)
      (deserted-SawNobody 360)

left_at_330 :
    (check_meeting_ended default_bot_substrings none (deserted 330) (
      poll_all default_bot_substrings none
        (deserted 30 ∷ [])
        (check_meeting_ended default_bot_substrings none with_ada tracker).1)).0
    ≡ true
unfolding check_meeting_ended has_ended count_humans is_meeting_bot strip includes_fold
left_at_330 = refl

check_meeting_ended-human_example : (has_ended (deserted 330) ≡ true) ⊎ (10 + 300 ≤ 330)
check_meeting_ended-human_example =
    check_meeting_ended-human default_bot_substrings none with_ada (deserted 330) (deserted 30 ∷ [])
      tracker saw_ada (omega arith, tt) left_at_330
