-- ===== src/Experiment/Runner.antt =====
-- agent_experiment.rs: one headless session from the construction of its agents to their shutdown. The
-- decision loop takes fuel, and `none` says that the fuel ran out.
pub mod Courses
pub mod Bounds
pub mod Play
pub mod Termination
pub mod Shutdown
pub mod Failure
use Prim.Native.String.{◌++◌ as ◌++ₛ◌}
use parlando.Common.{
  ℕ, zero, suc, ◌+◌, Bool, true, false, List, [], ◌∷◌, ◌++◌, Option, none, some, String, inl, inr,
  ◌⊎◌, if◌then◌else◌,
}
use parlando.Runtime.Role.{PlayerRole, a, b, as_str}
use parlando.Experiment.Schedule.{AgentSchedule}
use parlando.Experiment.Model.{
  Game, completed, failed, TraceLevel, results, decisions, full, SessionPlan, create, shutdown,
  Answer, done, raised, timed_out, Agents, Run, SessionOutcome, SessionResult, record_failure,
  TraceEntry,
}
use parlando.Experiment.Calls.{
  Outcome, ok, fails, pure, and_then, called, start_agents, finish_agents,
}
use parlando.Experiment.Decision.{Pass, exits, continues, pass}

abbrev pub created : {A : Type 0} → Answer (Unit {0}) → (String → A) → A → A
created (done _) otherwise next = next
created (raised error) otherwise next = otherwise error
created timed_out otherwise next = otherwise "agent factory timed out: deadline has elapsed"

abbrev pub diagnostics_of : Option String → List String
diagnostics_of none = []
diagnostics_of (some error) = error ∷ []

module _ {G : Game} (agents : Agents G) where
  -- `shutdown_agent`; the formatted error is the parameter's text.
  abbrev pub shutdown_diagnostic : Answer (Unit {0}) → Option String
  shutdown_diagnostic (done _) = none
  shutdown_diagnostic (raised error) = some ("shutdown failed: " ++ₛ error)
  shutdown_diagnostic timed_out = some "shutdown timed out"

  unfoldable pub shutdown_agent : PlayerRole → Run G → Option String × Run G
  shutdown_agent role r =
      (shutdown_diagnostic (agents.callback (shutdown role ∷ r.calls)), called (shutdown role) r)

  abbrev pub role_diagnostic : PlayerRole → Option String → List String
  role_diagnostic role none = []
  role_diagnostic role (some error) = ("role " ++ₛ as_str role ++ₛ ": " ++ₛ error) ∷ []

  unfoldable pub shutdown_agents : Run G → List String × Run G
  unfolding shutdown_agent
  shutdown_agents r =
      let (first, r1) = shutdown_agent a r in
      let (second, r2) = shutdown_agent b r1 in
      (role_diagnostic a first ++ role_diagnostic b second, r2)

  module _ (plan : SessionPlan G) where
    -- What a pass of the loop leads to, `again` being the next pass.
    abbrev pub resume :
        {Memory : Type 0}
        → (G.State → PlayerRole → Memory → Run G → Option (Outcome G (SessionOutcome G)))
        → Outcome G (Pass G Memory)
        → Option (Outcome G (SessionOutcome G))
    resume again (fails failure r) = some (fails failure r)
    resume again (ok (exits outcome) r) = some (ok outcome r)
    resume again (ok (continues state role memory) r) = again state role memory r

    unfoldable pub drive_loop :
        (schedule : AgentSchedule G.Action)
        → ℕ
        → G.State
        → PlayerRole
        → schedule.Memory
        → Run G
        → Option (Outcome G (SessionOutcome G))
    drive_loop schedule zero state role memory r = none
    drive_loop schedule (suc fuel) state role memory r =
        resume (drive_loop schedule fuel) (pass agents plan schedule state role memory r)

    abbrev pub drive_schedule :
        String ⊎ AgentSchedule G.Action
        → ℕ
        → G.State
        → Run G
        → Option (Outcome G (SessionOutcome G))
    drive_schedule (inl error) fuel state r =
        some (fails (record { phase = "schedule"; role = none; error = error }) r)
    drive_schedule (inr schedule) fuel state r =
        drive_loop schedule fuel state (schedule.first schedule.start) schedule.start r

    -- Play from a state with this completion, after both agents have started.
    abbrev pub play :
        Option G.Completion → ℕ → G.State → Run G → Option (Outcome G (SessionOutcome G))
    play (some completion) fuel state r = some (
        and_then (finish_agents agents completion r)
          (λ _. pure (record { status = completed; completion = some completion })))
    play none fuel state r = drive_schedule plan.schedule fuel state r

    abbrev pub started :
        Outcome G (Unit {0})
        → (Run G → Option (Outcome G (SessionOutcome G)))
        → Option (Outcome G (SessionOutcome G))
    started (fails failure r) go = some (fails failure r)
    started (ok _ r) go = go r

    unfoldable pub drive_session : ℕ → G.State → Run G → Option (Outcome G (SessionOutcome G))
    drive_session fuel state r =
        started (start_agents agents state r) (play (G.completion state) fuel state)

    abbrev pub first_trace : TraceLevel → Option (List (TraceEntry G))
    first_trace results = none
    first_trace _ = some []

    abbrev pub new_run : Run G
    new_run = record {
      calls = [];
      decisions = 0;
      accepted_actions = 0;
      rejected_actions = 0;
      messages = 0;
      trace = first_trace plan.trace;
      trajectory = [];
    }

    abbrev pub unfinished : Run G → SessionResult G
    unfinished r = record {
      status = failed;
      completion = none;
      failure_phase = none;
      failure_role = none;
      diagnostic = none;
      cleanup_diagnostics = [];
      run = r;
    }

    abbrev pub summary : Outcome G (SessionOutcome G) → SessionResult G
    summary (ok outcome r) = record (unfinished r) {
      status = outcome.status;
      completion = outcome.completion;
    }
    summary (fails failure r) =
        record_failure (unfinished r) failure.phase failure.role failure.error

    abbrev pub shut_down : SessionResult G → SessionResult G
    shut_down result =
        let (diagnostics, r) = shutdown_agents result.run in
        record result { cleanup_diagnostics = diagnostics; run = r }

    abbrev pub concluded : Option (Outcome G (SessionOutcome G)) → Option (SessionResult G)
    concluded none = none
    concluded (some outcome) = some (shut_down (summary outcome))

    abbrev pub run_from : String ⊎ G.State → ℕ → Run G → Option (SessionResult G)
    run_from (inl error) fuel r =
        some (shut_down (record_failure (unfinished r) "initial_state" none error))
    run_from (inr state) fuel r = concluded (drive_session fuel state r)

    -- Both agents are there.
    unfoldable pub run_agents : ℕ → Run G → Option (SessionResult G)
    run_agents fuel r = run_from (G.initial_state plan.context) fuel r

    -- The second agent was not constructed, and the first is shut down.
    abbrev pub shut_first : SessionResult G → SessionResult G
    shut_first result =
        let (error, r) = shutdown_agent a result.run in
        record result { cleanup_diagnostics = diagnostics_of error; run = r }

    abbrev pub factory_failure : PlayerRole → Run G → String → SessionResult G
    factory_failure role r error = record_failure (unfinished r) "agent_factory" (some role) error

    abbrev pub create_second : ℕ → Run G → Option (SessionResult G)
    create_second fuel r =
        let r' = called (create b) r in
        created (agents.callback r'.calls) (λ error. some (shut_first (factory_failure b r' error)))
          (run_agents fuel r')

    abbrev pub create_first : ℕ → Run G → Option (SessionResult G)
    create_first fuel r =
        let r' = called (create a) r in
        created (agents.callback r'.calls) (λ error. some (factory_failure a r' error))
          (create_second fuel r')

    -- `SessionRunner::run`; `game` is the error of the game's factory, if it failed.
    unfoldable pub run : ℕ → Option String → Option (SessionResult G)
    run fuel (some error) = some (record_failure (unfinished new_run) "game_factory" none error)
    run fuel none = create_first fuel new_run
