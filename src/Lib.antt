-- ===== src/Lib.antt =====
-- Verification of the stores, queues, pools and decisions of Tempa, the personal assistant daemon
-- in src/tempa (Python). The paths below are from the repository's root.
--
-- The program. Tempa is a daemon: channels (WhatsApp, Slack, Gmail, calendar, Meet) bring requests in,
-- a coordinator turns them into actions, and workers take jobs from queues. What must not go wrong
-- stands in a few small stores, in the loop that runs a plan and in the code that decides whom to
-- answer and when to leave a call. Those are modelled here, each as a module:
--   Pending        src/tempa/core/pending_actions.py, the actions that wait for the owner's approval
--   CursorJobs     src/tempa/channels/slack/cursor_jobs.py, the coding jobs of Slack threads
--   QaJobs         src/tempa/qa/job_store.py, the queue of QA scans
--   Dedupe         src/tempa/channels/whatsapp/dedupe.py, the message keys that were seen
--   CaptureSlots   src/tempa/meet/capture_slots.py, the pool of displays and sinks for meetings
--   Pairing        src/tempa/pc/transfer/pairing.py, the tokens of file downloads
--   MeetJobs       src/tempa/meet/job_store.py, the meetings to join
--   MeetQuality    src/tempa/meet/quality.py, what a recording is worth; MeetJobs.Finished ties it in
--   Tasks          src/tempa/core/task_store.py, the tasks that the coordinator delegated
--   Waves          compute_execution_waves of src/tempa/agents/graph.py
--   SyncStatus     src/tempa/core/sync_status.py, when each channel was last synchronised
--   ChatRuns       src/tempa/core/chat_runs.py, the runs of the chat and their cancellation
--   Goals          src/tempa/hermes/goals.py, standing goals and their kanban board
--   Secrets        src/tempa/security/sessions.py, the secrets encrypted at rest
--   Speakers       src/tempa/meet/speaker_tracker.py and src/tempa/meet/speakers.py, who speaks
--   Actor          src/tempa/orchestrator/actor_loop.py and src/tempa/orchestrator/step_verify.py, the
--                  loop that runs a plan step by step, with what it calls of src/tempa/agents/graph.py
--   Numbers        src/tempa/channels/whatsapp/numbers.py, whose WhatsApp messages are answered
--   MeetingEnd     src/tempa/meet/lifecycle.py and src/tempa/meet/bot_participants.py, when the bot
--                  leaves a call
--   ChatSessions   src/tempa/core/chat_sessions.py, the chats of the dashboard and their index
--   EventBus       src/tempa/core/events.py, the events of the agents and their subscribers
-- Base holds what they share: tests, lists, texts, dictionaries in insertion order, JSON values and
-- the stable sort. Disk holds the two files of a job store, and Disk.Lines how a row is written.
--
-- How the state corresponds. A store's file is an optional value: none where the file is missing or
-- no JSON object, which the code reads as empty. Queue files are lists of lines, a line being a row
-- or a text that does not parse; blank lines, which every reader skips, are left out. Disk.Lines
-- has the lines that a written row becomes: json.dumps leaves three characters as they are at which
-- splitlines breaks, so that a row whose texts have one becomes pieces that do not parse. (A piece
-- between two such characters of one text could parse; it counts as one that does not.) A row is a
-- dictionary of JSON values (Base.Value); a time stamp in ISO form is kept as the instant that it
-- denotes, in microseconds, and an object or a fraction that a store only carries as its text. A
-- function of the source becomes a function of the same name that takes the disk, and the time of
-- the call where the code reads the clock (one reading for a call), and returns its result with the
-- disk. An identifier that uuid4 makes is an argument. The code's locks make each call one step;
-- execute_pending_action, which gives up the lock at an await, is split there into begin_execution
-- and finish_execution.
--
-- What is outside. What the executor calls in other modules is the parameter Outside of
-- Pending.Call, with no assumption about it. The specialists, the model that replans, json.loads
-- and the clock are the fields of Outside in Actor.State. What they give can make a step raise: a
-- list of subtasks that cannot be planned, messages without a length. Only Actor.Finishes assumes
-- something of them: that nothing cancels the run, that no specialist and no answer of the model
-- makes a step raise, and that the two texts about an agent that is unknown or has failed are no
-- JSON objects. The cipher of the cryptography package is the parameter Fernet of Secrets, and
-- IsFernet states what the package documents: a token decrypts to its text and is not empty; a
-- plain secret file is read with the line ends that read_text translates. What a poll reads of a
-- Meet page is the record Page of MeetingEnd. The file system and the QR library are arguments of
-- create_transfer_token.
--
-- Bounds and fuel. The loop over waves runs on the number of subtasks as fuel, one for each round,
-- and each round takes a subtask at least; the decimal digits of a number in Base.Value run on the
-- number itself, which is divided by ten in each round. The actor loop runs on the steps that
-- remain of actor_max_steps, and the attempts of a specialist on those that remain, as the source
-- counts them. Every other loop recurs on a list or a text.
--
-- What is not modelled: failures of reading and writing files, the threads that wait for a lock,
-- the wait of CaptureSlotPool.acquire on an empty pool, logging, the events and status lines that
-- the actor loop publishes, and the channels, prompts and services around the stores.
pub mod Base
pub mod Disk
pub mod Pending
pub mod CursorJobs
pub mod QaJobs
pub mod MeetJobs
pub mod MeetQuality
pub mod Tasks
pub mod Waves
pub mod SyncStatus
pub mod ChatRuns
pub mod Goals
pub mod Dedupe
pub mod CaptureSlots
pub mod Pairing
pub mod Secrets
pub mod Speakers
pub mod Actor
pub mod Numbers
pub mod MeetingEnd
pub mod ChatSessions
pub mod EventBus
