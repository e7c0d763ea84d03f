-- ===== src/Lib.antt =====
-- Parlando: a server for two-player game experiments, with two of its games.
--
-- The server (rust-server) takes participants in, pairs them in live sessions, hands each action of
-- a player to the session's game, and ends every session with one result for each human. A game
-- (games/great-tree, space-game) is a pure transition function over its state, with a view for each
-- role; the server reaches it by `Game::apply_action`, `observation` and `completion` alone. Beside
-- the sessions stand the credentials and upgrade tickets that let a browser in, the limit on new
-- participants, the session's log, the audio relay, and the clock that puts transcripts in the time
-- of the capture.
--
-- Which file models what:
-- - Common: tests, lists, association lists for `HashMap`, sets, signed integers.
-- - Runtime/Role, Runtime/Lifecycle: roles (rust-server/src/game.rs) and the lifecycle of an
--   experiment (rust-server/src/app/lifecycle.rs).
-- - Runtime/Credentials, Runtime/Tickets: rust-server/src/auth.rs, `ParticipantAuthenticator` and
--   `UpgradeTicketStore`.
-- - Runtime/Administrator: `AdminAuthenticator` of rust-server/src/auth.rs; Tables has the queries of
--   rust-server/src/storage.rs, Laws and Setup the proofs.
-- - Runtime/Limits: `ParticipantCreationRate` of rust-server/src/app.rs.
-- - Runtime/SessionLog: rust-server/src/session_log.rs; its Interleaved has the handles' steps.
-- - Runtime/Audio: rust-server/src/audio.rs, Frame the wire form and Registry the relay.
-- - Runtime/Audio/Publisher: rust-server/src/audio_publisher.rs, the frames of an agent's speech.
-- - Runtime/Clock: rust-server/src/transcription/clock.rs; its Mapping has `map`.
-- - Runtime/Speech: the alignment of synthesized speech, rust-server/src/tts.rs; Words and Alignment have the proofs.
-- - Runtime/Session: the live sessions of rust-server/src/app.rs. Model has the records of
--   storage.rs, protocol.rs and config.rs; Admission `next_role`, `ensure_session_capacity` and the
--   pairing; Progress readiness, `maybe_start_game` and `submit_action`; Ending `abandon_session`,
--   `expire_live_session` and `completed_session_end`; Outcomes what each participant is to be told,
--   as tables; History the calls under a session's transition lock, with the removals of
--   `cleanup_transient_rooms`; Pairing, Answers, Results, Turns and
--   History/Final have the proofs.
-- - GreatTree: games/great-tree/server/src/game. Ids, State, Mechanics and Adapter are the files
--   ids.rs, types.rs, mechanics.rs, and adapter.rs with bijection.rs; Invariant, Flow, Sunlight,
--   Start, Play, Requests and Liveness have the proofs.
-- - SpaceGame: space-game/server/src/game. Level is level.rs, Adapter is adapter.rs, and State,
--   Systems, Actions and Engine are state_engine.rs; Placement, Power and Play have the proofs.
-- - Experiment: one headless session of rust-server/src/agent_experiment.rs. Limits is
--   `SessionLimits`, Schedule the two schedules, Model the records, Calls the callbacks of the agents
--   with their failures, Recording traces and trajectories, Decision one pass of the loop in
--   `drive_session` with `apply_action`, Runner the loop and `SessionRunner::run`. Invariant has the
--   rule by which a session keeps an invariant, for any agents; the children of Runner and of
--   Schedule have the theorems.
-- - Examples in each part: small runs.
--
-- How state and calls correspond: a method that mutates is a function to the next state and the
-- answer; a lock that is held for a whole call makes the call one step. The calls that end, start or
-- move a live session read it, await the store and then write, and the expiry holds no lock: they
-- take the memory that they read and the one that they write to. What the code asks of
-- others is an argument: the database's answers, the clock's times, random tokens and UUIDs, the
-- digest of a token, the random generator (its shuffle permutes), a channel's `try_send`, Unicode
-- lower case. A panic and an arithmetic overflow are values where the code can meet one.
--
-- An agent of an experiment is any program: its answers, and the clock's, are functions of all the
-- calls made so far. The live server's sessions and the headless ones share the trait `Game`, with
-- the operations that each of them uses.
--
-- Bounds: the decision loop of an experiment runs on fuel, and any fuel above the limit on decisions
-- is enough; the cutting of speech into frames runs on the number of its bytes. Every other loop is a
-- recursion on its list. The byte counter of a
-- log wraps at 2 ^ 64, the fields of an audio frame at their widths, and the clock's times are
-- below 2 ^ 63. The coordinates of the Space Game are not bounded; they stay on the map.
--
-- Not modelled: most SQL, HTTP and WebSocket handlers, the dashboard, agents' processes, speech services,
-- telemetry, configuration files, plans and results of experiments, and the clients; they are input
-- and output around the parts above. Of the sessions, pausing and reconnecting, and the messages sent; of the sweep, which sessions it
-- chooses.
pub mod Common
pub mod Runtime
pub mod GreatTree
pub mod SpaceGame
pub mod Experiment
