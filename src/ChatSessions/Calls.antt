-- ===== src/ChatSessions/Calls.antt =====
-- The calls of core/chat_sessions.py in any order, and the index after them.
use tempa.Base.{ℕ, String, none, List, [], ◌∷◌, ◌≡◌}
use tempa.ChatSessions.{
  Disk, Message, read_session, create_session, update_title, append_message, delete_session,
}
use tempa.ChatSessions.Index.{
  IsIndexed, create_session-IsIndexed, update_title-IsIndexed, append_message-IsIndexed,
  delete_session-IsIndexed,
}

-- A call that changes the files.
pub data Call : Type 0 where
  create : (session_id title : String) → ℕ → Call
  rename : (session_id title : String) → ℕ → Call
  append : (session_id : String) → Message → ℕ → Call
  delete : (session_id : String) → Call

abbrev pub run : Call → Disk → Disk
run (create id title now) d = (create_session id title now d).1
run (rename id title now) d = (update_title id title now d).1
run (append id m now) d = (append_message id m now d).1
run (delete id) d = (delete_session id d).1

abbrev pub run_all : List Call → Disk → Disk
run_all [] d = d
run_all (c ∷ calls) d = run_all calls (run c d)

-- Each new session has an identifier that no file has.
abbrev pub IsNew : Call → Disk → Type 0
IsNew (create id title now) d = read_session id d ≡ none
IsNew _ d = Unit

abbrev pub AllNew : List Call → Disk → Type 0
AllNew [] d = Unit
AllNew (c ∷ calls) d = IsNew c d × AllNew calls (run c d)

run-IsIndexed : (c : Call) (d : Disk) → IsNew c d → IsIndexed d → IsIndexed (run c d)
run-IsIndexed (create id title now) d fresh h = create_session-IsIndexed id title now d fresh h
run-IsIndexed (rename id title now) d fresh h = update_title-IsIndexed id title now d h
run-IsIndexed (append id m now) d fresh h = append_message-IsIndexed id m now d h
run-IsIndexed (delete id) d fresh h = delete_session-IsIndexed id d h

-- Whatever calls are made, in any order, as long as new sessions get new identifiers: the index shows
-- the title and the times of each stored session, and no session that is not stored, if it did before.
pub run_all-IsIndexed :
    (calls : List Call) (d : Disk) → AllNew calls d → IsIndexed d → IsIndexed (run_all calls d)
run_all-IsIndexed [] d fresh h = h
run_all-IsIndexed (c ∷ calls) d fresh h =
    run_all-IsIndexed calls (run c d) fresh.1 (run-IsIndexed c d fresh.0 h)
