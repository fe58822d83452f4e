-- ===== src/EventBus/Examples.antt =====
-- A subscriber that comes late and leaves early, on a bus of texts.
use tempa.Base.{String, List, [], ◌∷◌, ◌≡◌}
use tempa.EventBus.{new_bus, subscribe}
use tempa.EventBus.Listening.{Call, join, leave, send, run_all, heard, queues-subscribe}

abbrev before : List (Call String)
before = join ∷ send "early" ∷ []

abbrev calls : List (Call String)
calls = send "plan" ∷ join ∷ leave 0 ∷ send "done" ∷ leave 1 ∷ send "late" ∷ []

queues-subscribe_example :
    (run_all calls (subscribe (run_all before new_bus)).1).queues
      (subscribe (run_all before new_bus)).0
    ≡ heard (subscribe (run_all before new_bus)).0 calls
queues-subscribe_example = queues-subscribe before calls
