-- ===== src/Actor.antt =====
-- The actor loop of the coordinator: orchestrator/actor_loop.py and orchestrator/step_verify.py of
-- src/tempa, with what they call of agents/graph.py.
mod Examples
pub mod Check
pub mod Collect
pub mod Loop
pub mod Plan
pub mod Rounds
pub mod Specialist
pub mod Stops
pub mod Finishes
pub mod Trace
pub mod State
