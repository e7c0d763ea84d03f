-- ===== src/Experiment/Runner/Shutdown.antt =====
-- agent_experiment.rs: the agents that a session constructs are shut down.
use parlando.Common.{
  ℕ, ◌+◌, ◌≤◌, ◌<◌, ◌≡◌, refl, Bool, true, false, Option, none, some, String, inl, inr, ◌⊎◌, List,
  [], ◌∷◌, arith, if◌then◌else◌, ◌==◌, ◌&&◌, subst,
}
use parlando.Runtime.Role.{PlayerRole, a, b, eq_PlayerRole}
use parlando.Experiment.Limits.{IsUsable}
use parlando.Experiment.Model.{
  Game, SessionPlan, Call, create, start, respond, observe_transition, observe_message, finish,
  shutdown, Answer, done, raised, timed_out, Agents, Run, SessionOutcome, SessionResult,
  record_failure,
}
use parlando.Experiment.Calls.{Outcome, ok, fails, called}
use parlando.Experiment.Runner.{
  drive_session, run, run_agents, run_from, create_second, new_run, created, concluded, shut_down,
  shut_first, summary, shutdown_agents, shutdown_agent, factory_failure,
}
use parlando.Experiment.Decision.{count_decision}
use parlando.Experiment.Runner.Bounds.{agents_run-IsUnder}
use parlando.Experiment.Runner.Courses.{agents_run}
use parlando.Experiment.Invariant.{Fits, IsUnder, IsInvariant}
use parlando.Experiment.Invariant.Loop.{Concludes, drive_session-Concludes}

abbrev pub is_done : {A : Type 0} → Answer A → Bool
is_done (done _) = true
is_done (raised _) = false
is_done timed_out = false

module _ {G : Game} where
  abbrev pub shutdown_count : PlayerRole → List (Call G) → ℕ
  shutdown_count role [] = 0
  shutdown_count role (shutdown other ∷ calls) =
      (if role == other then 1 else 0) + shutdown_count role calls
  shutdown_count role (_ ∷ calls) = shutdown_count role calls

  -- How often a factory gave an agent for the role.
  abbrev pub agent_count : Agents G → PlayerRole → List (Call G) → ℕ
  agent_count agents role [] = 0
  agent_count agents role (create other ∷ calls) =
      (if role == other && is_done (agents.callback (create other ∷ calls)) then 1 else 0)
      + agent_count agents role calls
  agent_count agents role (_ ∷ calls) = agent_count agents role calls

module _ {G : Game} (agents : Agents G) (plan : SessionPlan G) where
  abbrev Unshut : PlayerRole → G.State → ℕ → ℕ → Run G → Type 0
  Unshut role s x y r = (shutdown_count role r.calls ≡ 0) × (agent_count agents role r.calls ≡ 1)

  Unshut-call :
      (role : PlayerRole) (s : G.State) (x y : ℕ) (r : Run G) (c : Call G)
      → Fits (λ _. Unit) s c
      → Unshut role s x y r
      → Unshut role s x y (called c r)
  Unshut-call role s x y r (create other) f h = absurd f
  Unshut-call role s x y r (shutdown other) f h = absurd f
  Unshut-call role s x y r (start other seen) f h = h
  Unshut-call role s x y r (respond other affordances) f h = h
  Unshut-call role s x y r (observe_transition other actor act seen) f h = h
  Unshut-call role s x y r (observe_message other sender text) f h = h
  Unshut-call role s x y r (finish other completion) f h = h

  Unshut-IsInvariant : (role : PlayerRole) → IsInvariant plan (Unshut role)
  Unshut-IsInvariant role = record {
    Reached = λ _. Unit;
    reach = λ s x y r h. tt;
    call = Unshut-call role;
    note = λ s x y r t steps h. h;
    accepts = λ s next act actor y r legal h. h;
    rejects = λ s y r h. h;
    sends = λ s x r h. h;
    weaken = λ s x y r h. h;
  }

  Unshut-decides :
      (role : PlayerRole) (s : G.State) (r : Run G)
      → r.decisions < plan.limits.decisions
      → IsUnder plan r
      → Unshut role s 0 0 r
      → Unshut role s 1 1 (count_decision r)
  Unshut-decides role s r more u h = h

  -- As many agents of the role as were constructed have been shut down, at most one.
  abbrev pub IsShut : PlayerRole → List (Call G) → Type 0
  IsShut role calls =
      (shutdown_count role calls ≡ agent_count agents role calls) × (shutdown_count role calls ≤ 1)

  abbrev Kept : PlayerRole → Option (Outcome G (SessionOutcome G)) → Type 0
  Kept role = Concludes agents plan (Unshut role) (Unshut-IsInvariant role) (Unshut-decides role)

  summary-IsShut :
      (role : PlayerRole) (outcome : Outcome G (SessionOutcome G))
      → Kept role (some outcome)
      → IsShut role (shut_down agents plan (summary agents plan outcome)).run.calls
  unfolding shutdown_agents record_failure
  summary-IsShut a (ok outcome r) (s, h, truth) = ground arith
  summary-IsShut b (ok outcome r) (s, h, truth) = ground arith
  summary-IsShut a (fails failure r) (s, h) = ground arith
  summary-IsShut b (fails failure r) (s, h) = ground arith

  drive_session-Kept :
      (role : PlayerRole) (fuel : ℕ) (s : G.State) (r : Run G)
      → IsUsable plan.limits
      → Unshut role s 0 0 r
      → IsUnder plan r
      → Kept role (drive_session agents plan fuel s r)
  drive_session-Kept role fuel s r usable h u =
      drive_session-Concludes agents plan (Unshut role) (Unshut-IsInvariant role)
        (Unshut-decides role) fuel s r h u

  some_inj : {x y : SessionResult G} → some x ≡ some y → x ≡ y
  some_inj h = cc

  concluded-IsShut :
      (role : PlayerRole) (o : Option (Outcome G (SessionOutcome G))) (result : SessionResult G)
      → Kept role o
      → concluded agents plan o ≡ some result
      → IsShut role result.run.calls
  concluded-IsShut role none result h e = cc
  concluded-IsShut role (some outcome) result h e =
      subst (λ (r : SessionResult G). IsShut role r.run.calls) (some_inj e)
        (summary-IsShut role outcome h)

  run_from-IsShut :
      (role : PlayerRole) (initial : String ⊎ G.State) (fuel : ℕ) (result : SessionResult G)
      → IsUsable plan.limits
      → (agent_count agents a (agents_run agents plan).calls ≡ 1)
        × (agent_count agents b (agents_run agents plan).calls ≡ 1)
      → run_from agents plan initial fuel (agents_run agents plan) ≡ some result
      → IsShut role result.run.calls
  unfolding shutdown_agents record_failure
  run_from-IsShut a (inl error) fuel result usable made h =
      subst (λ (r : SessionResult G). IsShut a r.run.calls) (some_inj h) (ground arith)
  run_from-IsShut b (inl error) fuel result usable made h =
      subst (λ (r : SessionResult G). IsShut b r.run.calls) (some_inj h) (ground arith)
  run_from-IsShut a (inr s) fuel result usable made h =
      concluded-IsShut a (drive_session agents plan fuel s (agents_run agents plan)) result
        (drive_session-Kept a fuel s _ usable (refl, made.0)
          (agents_run-IsUnder agents plan usable))
        h
  run_from-IsShut b (inr s) fuel result usable made h =
      concluded-IsShut b (drive_session agents plan fuel s (agents_run agents plan)) result
        (drive_session-Kept b fuel s _ usable (refl, made.1)
          (agents_run-IsUnder agents plan usable))
        h

  created_second-IsShut :
      (role : PlayerRole) (answer : Answer (Unit {0})) (fuel : ℕ) (result : SessionResult G)
      → IsUsable plan.limits
      → is_done (agents.callback (create a ∷ [])) ≡ true
      → agents.callback (create b ∷ create a ∷ []) ≡ answer
      → created answer
          (λ error.
            some (
              shut_first agents plan
                (factory_failure agents plan b (agents_run agents plan) error)))
          (run_agents agents plan fuel (agents_run agents plan))
        ≡ some result
      → IsShut role result.run.calls
  unfolding run_agents shutdown_agent record_failure
  created_second-IsShut role (done _) fuel result usable first second h =
      run_from-IsShut role (G.initial_state plan.context) fuel result usable (ground arith) h
  created_second-IsShut a (raised error) fuel result usable first second h =
      subst (λ (r : SessionResult G). IsShut a r.run.calls) (some_inj h) (ground arith)
  created_second-IsShut b (raised error) fuel result usable first second h =
      subst (λ (r : SessionResult G). IsShut b r.run.calls) (some_inj h) (ground arith)
  created_second-IsShut a timed_out fuel result usable first second h =
      subst (λ (r : SessionResult G). IsShut a r.run.calls) (some_inj h) (ground arith)
  created_second-IsShut b timed_out fuel result usable first second h =
      subst (λ (r : SessionResult G). IsShut b r.run.calls) (some_inj h) (ground arith)

  created_first-IsShut :
      (role : PlayerRole) (answer : Answer (Unit {0})) (fuel : ℕ) (result : SessionResult G)
      → IsUsable plan.limits
      → agents.callback (create a ∷ []) ≡ answer
      → created answer
          (λ error.
            some (factory_failure agents plan a (called (create a) (new_run agents plan)) error))
          (create_second agents plan fuel (called (create a) (new_run agents plan)))
        ≡ some result
      → IsShut role result.run.calls
  unfolding record_failure
  created_first-IsShut role (done _) fuel result usable first h =
      created_second-IsShut role _ fuel result usable (ground arith) refl h
  created_first-IsShut role (raised error) fuel result usable first h =
      subst (λ (r : SessionResult G). IsShut role r.run.calls) (some_inj h) (ground arith)
  created_first-IsShut role timed_out fuel result usable first h =
      subst (λ (r : SessionResult G). IsShut role r.run.calls) (some_inj h) (ground arith)

  -- Whichever way a session ends, each role's agent is shut down exactly once if its factory gave
  -- one, and not at all otherwise.
  pub run-IsShut :
      (role : PlayerRole) (fuel : ℕ) (game : Option String) (result : SessionResult G)
      → IsUsable plan.limits
      → run agents plan fuel game ≡ some result
      → IsShut role result.run.calls
  unfolding run record_failure
  run-IsShut role fuel (some error) result usable h =
      subst (λ (r : SessionResult G). IsShut role r.run.calls) (some_inj h) (refl, ground arith)
  run-IsShut role fuel none result usable h =
      created_first-IsShut role (agents.callback (create a ∷ [])) fuel result usable refl h
