-- ===== src/Actor/Finishes.antt =====
-- That `run_actor_loop` of orchestrator/actor_loop.py returns where nothing cancels it and what it
-- calls gives it what it can read.
use tempa.Base.{String}
use tempa.Base.Dict.{Dict}
use tempa.Actor.State.{State}
