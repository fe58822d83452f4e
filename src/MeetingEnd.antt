-- ===== src/MeetingEnd.antt =====
-- When the bot leaves a meeting: meet/lifecycle.py of src/tempa, with meet/bot_participants.py.
-- Times are in one unit; the wall clock and the monotonic clock are told apart.
mod Examples
pub mod Alone
pub mod Grace
use tempa.Base.{
  ℕ, zero, suc, String, Bool, true, false, not, ◌&&◌, ◌||◌, Option, none, some, List, [], ◌∷◌, ◌==◌,
  any, contains, if◌then◌else◌, leb, ltb, eqb, ◌+◌,
}
use tempa.Base.Match.{includes_fold}
use tempa.Base.Text.{strip, includes}

abbrev pub end_selectors : List String
end_selectors =
    "text=\"You left the meeting\"" ∷ "text=\"The call has ended\""
    ∷ "text=\"You've been removed from the meeting\""
    ∷ "text=\"The meeting has ended for everyone\"" ∷ "button:has-text(\"Rejoin\")"
    ∷ "button:has-text(\"Return to home screen\")" ∷ "a:has-text(\"Rejoin\")"
    ∷ "a:has-text(\"Return to home screen\")" ∷ []

abbrev pub default_bot_substrings : List String
default_bot_substrings =
    "notetaker" ∷ "note taker" ∷ "meeting notes" ∷ "gemini" ∷ "rumi" ∷ "otter" ∷ "fireflies"
    ∷ "read.ai" ∷ "read ai" ∷ "granola" ∷ "fathom" ∷ "tl;dv" ∷ "tldv" ∷ "krisp" ∷ "equal time"
    ∷ "chorus" ∷ "gong" ∷ "avoma" ∷ "fellow" ∷ "scribe" ∷ "tactiq" ∷ "supernormal" ∷ "nyota"
    ∷ "meetgeek" ∷ "meeto" ∷ "automation" ∷ "recorder" ∷ "tempa" ∷ []

-- The pattern of the parts is a search for one of them; without parts it never matches.
unfoldable pub is_meeting_bot : (bot_name_substrings : List String) → String → Bool
is_meeting_bot bot_name_substrings name =
    not (strip name == "") && any (includes_fold (strip name)) bot_name_substrings

unfoldable pub count_humans : (bot_name_substrings names : List String) → ℕ
count_humans bot_name_substrings [] = 0
count_humans bot_name_substrings (name ∷ names) =
    let humans = count_humans bot_name_substrings names in
    if is_meeting_bot bot_name_substrings name then humans else suc humans

-- `last_human_count` is none before the first count, which the source writes as -1.
pub record MeetingEndTracker : Type 0 where
  pub alone_since : Option ℕ
  pub humans_seen : Bool
  pub alone_grace_seconds : ℕ
  pub last_human_count : Option ℕ
  pub leave_reason : Option String

-- What a poll reads of the page and the clocks. A count is none where the locator raised, `names`
-- where the scrape failed.
pub record Page : Type 0 where
  pub count : (selector : String) → Option ℕ
  pub leave_count : Option ℕ
  pub url : String
  pub names : Option (List String)
  pub wall : ℕ
  pub monotonic : ℕ

abbrev is_positive : Option ℕ → Bool
is_positive none = false
is_positive (some n) = ltb 0 n

abbrev is_zero : Option ℕ → Bool
is_zero none = false
is_zero (some n) = eqb n 0

-- The page says that the call ended, or it is no page of Meet any more.
unfoldable pub has_ended : Page → Bool
has_ended page =
    any (λ selector. is_positive (page.count selector)) end_selectors
    || (is_zero page.leave_count && not (includes page.url "meet.google.com"))

-- `event_start_ts is not None and time.time() < event_start_ts`
abbrev pub is_early : (event_start_ts : Option ℕ) → Page → Bool
is_early none page = false
is_early (some start) page = ltb page.wall start

-- With no humans in the call.
abbrev pub alone_at : (now : ℕ) (since : Option ℕ) → MeetingEndTracker → Bool × MeetingEndTracker
alone_at now none t = (false, record t { alone_since = some now })
alone_at now (some since) t =
    if leb (since + t.alone_grace_seconds) now
    then (true, record t { leave_reason = some "no_humans" })
    else (false, t)

abbrev pub counted : (now : ℕ) (humans : Option ℕ) → MeetingEndTracker → Bool × MeetingEndTracker
counted now none t = (false, t)
counted now (some zero) t = alone_at now t.alone_since (record t { last_human_count = some 0 })
counted now (some (suc n)) t =
    (false, record t { alone_since = none; humans_seen = true; last_human_count = some (suc n) })

-- `get_human_participant_count`, with none for -1
abbrev pub human_count : (bot_name_substrings : List String) → Option (List String) → Option ℕ
human_count bot_name_substrings none = none
human_count bot_name_substrings (some names) = some (count_humans bot_name_substrings names)

-- `check_meeting_ended` with a tracker
unfoldable pub check_meeting_ended :
    (bot_name_substrings : List String) (event_start_ts : Option ℕ)
    → Page
    → MeetingEndTracker
    → Bool × MeetingEndTracker
check_meeting_ended bot_name_substrings event_start_ts page t =
    if is_early event_start_ts page
    then (false, record t { alone_since = none })
    else if has_ended page
    then (true, record t { leave_reason = some "call_ended" })
    else counted page.monotonic (human_count bot_name_substrings page.names) t

-- and without one
abbrev is_nobody : Option ℕ → Bool
is_nobody none = false
is_nobody (some n) = eqb n 0

unfoldable pub check_untracked :
    (bot_name_substrings : List String) (event_start_ts : Option ℕ) → Page → Bool
check_untracked bot_name_substrings event_start_ts page =
    if is_early event_start_ts page
    then false
    else has_ended page || is_nobody (human_count bot_name_substrings page.names)
