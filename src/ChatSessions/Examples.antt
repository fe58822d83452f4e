-- ===== src/ChatSessions/Examples.antt =====
-- Two chats, one of which is named after its first message and the other deleted.
use tempa.Base.{false, none, List, [], ◌∷◌, refl}
use tempa.Base.Dict
use tempa.ChatSessions.{Disk, Message, user, read_session, create_session}
use tempa.ChatSessions.Calls.{
  Call, create, rename, append, delete, AllNew, run_all, run_all-IsIndexed,
}
use tempa.ChatSessions.Index.{IsIndexed}

abbrev empty_disk : Disk
empty_disk = record { sessions = []; index = none }

abbrev hello : Message
hello = record {
  message_id = "m";
  role = user;
  content = "  Plan   my week ";
  sources = [];
  created_at = 0;
  is_paused = false;
  steps = [];
  activity = [];
  pending_actions = [];
  artifacts = [];
  planned_steps = [];
}

abbrev calls : List Call
calls =
    create "a" "" 1
    ∷ create "b" "Trip" 2
    ∷ append "a" hello 3
    ∷ rename "b" "Voyage" 4
    ∷ delete "b"
    ∷ []

calls-AllNew : AllNew calls empty_disk
unfolding read_session create_session Dict.get Dict.put
calls-AllNew = (refl, (refl, (tt, (tt, (tt, tt)))))

empty-IsIndexed : IsIndexed empty_disk
unfolding read_session Dict.get
empty-IsIndexed session_id = refl

run_all-IsIndexed_example : IsIndexed (run_all calls empty_disk)
run_all-IsIndexed_example = run_all-IsIndexed calls empty_disk calls-AllNew empty-IsIndexed
