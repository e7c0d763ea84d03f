-- ===== src/Experiment/Runner/Termination.antt =====
-- agent_experiment.rs: a session ends, for the loop counts a decision in every pass.
use parlando.Common.{
  ℕ, zero, suc, ◌+◌, ◌≤◌, ◌<◌, ◌≡◌, refl, Option, none, some, String, inl, inr, ◌⊎◌, leb, arith,
  Bool-cases,
}
use parlando.Runtime.Role.{PlayerRole, a, b}
use parlando.Experiment.Schedule.{AgentSchedule}
use parlando.Experiment.Model.{
  Game, SessionPlan, create, Answer, done, raised, timed_out, Agents, Run, SessionOutcome,
}
use parlando.Experiment.Calls.{Outcome, ok, fails, called}
use parlando.Experiment.Runner.{
  drive_session, run, run_agents, run_from, create_second, new_run, created, shut_first,
  factory_failure,
}
use parlando.Experiment.Calls.{start_agents}
use parlando.Experiment.Runner.Courses.{agents_run}
use parlando.Experiment.Invariant.{Ensures, IsInvariant, Somewhere, Keeps}
use parlando.Experiment.Invariant.Decision.{Sound}
use parlando.Experiment.Invariant.{start_agents-Keeps}
use parlando.Experiment.Decision.{Pass, exits, continues, pass, decide}
use parlando.Experiment.Runner.{resume, drive_loop, drive_schedule, play, started}
use parlando.Experiment.Invariant.Decision.{decide-Sound}

-- There is a result.
abbrev pub Ends : {A : Type 0} → Option A → Type 0
Ends {A} o = (x : A) × (o ≡ some x)

module _ {G : Game} (agents : Agents G) (plan : SessionPlan G) where
  abbrev Counted : ℕ → G.State → ℕ → ℕ → Run G → Type 0
  Counted n s x y r = r.decisions ≡ n

  Counted-IsInvariant : (n : ℕ) → IsInvariant plan (Counted n)
  Counted-IsInvariant n = record {
    Reached = λ _. Unit;
    reach = λ s x y r h. tt;
    call = λ s x y r c f h. h;
    note = λ s x y r t steps h. h;
    accepts = λ s next act role y r legal h. h;
    rejects = λ s y r h. h;
    sends = λ s x r h. h;
    weaken = λ s x y r h. h;
  }

  resume-Ends :
      {Memory : Type 0}
      (again : G.State → PlayerRole → Memory → Run G → Option (Outcome G (SessionOutcome G)))
      (n : ℕ) (o : Outcome G (Pass G Memory))
      → Ensures
          (Somewhere plan (Counted n) (Counted-IsInvariant n))
          (Sound plan (Counted n) (Counted-IsInvariant n) agents)
          o
      → ((s : G.State) (role : PlayerRole) (memory : Memory) (r : Run G)
          → r.decisions ≡ n
          → Ends (again s role memory r))
      → Ends (resume agents plan again o)
  resume-Ends again n (fails failure r) h k = (fails failure r, refl)
  resume-Ends again n (ok (exits outcome) r) h k = (ok outcome r, refl)
  resume-Ends again n (ok (continues s role memory) r) h k = k s role memory r h.0

  drive_loop-Ends :
      (schedule : AgentSchedule G.Action) (fuel : ℕ) (s : G.State) (role : PlayerRole)
      (memory : schedule.Memory) (r : Run G)
      → r.decisions ≤ plan.limits.decisions
      → plan.limits.decisions < fuel + r.decisions
      → Ends (drive_loop agents plan schedule fuel s role memory r)
  unfolding drive_loop pass
  drive_loop-Ends schedule zero s role memory r within enough = absurd (omega arith)
  drive_loop-Ends schedule (suc fuel) s role memory r within enough =
      elim (Bool-cases (agents.past_deadline r.calls)) [
        | inl late ↦ rw late (_, refl)
        | inr early ↦ rw early (elim (Bool-cases (leb plan.limits.decisions r.decisions)) [
          | inl over ↦ rw over (_, refl)
          | inr more ↦ rw more (
              resume-Ends (drive_loop agents plan schedule fuel) (r.decisions + 1)
                (decide agents plan schedule s role memory r)
                (decide-Sound plan (Counted (r.decisions + 1))
                  (Counted-IsInvariant (r.decisions + 1)) agents schedule s role memory r refl)
                (λ s' role' memory' r' e.
                  drive_loop-Ends schedule fuel s' role' memory' r' (ground arith) (ground arith)))
        ])
      ]

  drive_schedule-Ends :
      (choice : String ⊎ AgentSchedule G.Action) (fuel : ℕ) (s : G.State) (r : Run G)
      → r.decisions ≡ 0
      → plan.limits.decisions < fuel
      → Ends (drive_schedule agents plan choice fuel s r)
  drive_schedule-Ends (inl error) fuel s r fresh enough = (_, refl)
  drive_schedule-Ends (inr schedule) fuel s r fresh enough =
      drive_loop-Ends schedule fuel s _ _ r (omega arith) (omega arith)

  play-Ends :
      (over : Option G.Completion) (fuel : ℕ) (s : G.State) (r : Run G)
      → r.decisions ≡ 0
      → plan.limits.decisions < fuel
      → Ends (play agents plan over fuel s r)
  play-Ends (some completion) fuel s r fresh enough = (_, refl)
  play-Ends none fuel s r fresh enough = drive_schedule-Ends plan.schedule fuel s r fresh enough

  started-Ends :
      (o : Outcome G (Unit {0})) (fuel : ℕ) (s : G.State)
      → Keeps plan (Counted 0) (Counted-IsInvariant 0) s 0 0 o
      → plan.limits.decisions < fuel
      → Ends (started agents plan o (play agents plan (G.completion s) fuel s))
  started-Ends (fails failure r) fuel s h enough = (_, refl)
  started-Ends (ok _ r) fuel s h enough = play-Ends (G.completion s) fuel s r h enough

  drive_session-Ends :
      (fuel : ℕ) (s : G.State) (r : Run G)
      → r.decisions ≡ 0
      → plan.limits.decisions < fuel
      → Ends (drive_session agents plan fuel s r)
  unfolding drive_session
  drive_session-Ends fuel s r fresh enough =
      started-Ends (start_agents agents s r) fuel s
        (start_agents-Keeps plan (Counted 0) (Counted-IsInvariant 0) agents s 0 0 r fresh) enough

  run_from-Ends :
      (initial : String ⊎ G.State) (fuel : ℕ)
      → plan.limits.decisions < fuel
      → Ends (run_from agents plan initial fuel (agents_run agents plan))
  run_from-Ends (inl error) fuel enough = (_, refl)
  run_from-Ends (inr s) fuel enough =
      let (outcome, e) = drive_session-Ends fuel s (agents_run agents plan) refl enough in
      rw e (_, refl)

  created_second-Ends :
      (answer : Answer (Unit {0})) (fuel : ℕ)
      → plan.limits.decisions < fuel
      → Ends (
          created answer
            (λ error. some (
              shut_first agents plan
                (factory_failure agents plan b (agents_run agents plan) error)))
            (run_agents agents plan fuel (agents_run agents plan)))
  unfolding run_agents
  created_second-Ends (done _) fuel enough =
      run_from-Ends (G.initial_state plan.context) fuel enough
  created_second-Ends (raised error) fuel enough = (_, refl)
  created_second-Ends timed_out fuel enough = (_, refl)

  created_first-Ends :
      (answer : Answer (Unit {0})) (fuel : ℕ)
      → plan.limits.decisions < fuel
      → Ends (
          created answer
            (λ error.
              some (factory_failure agents plan a (called (create a) (new_run agents plan)) error))
            (create_second agents plan fuel (called (create a) (new_run agents plan))))
  created_first-Ends (done _) fuel enough = created_second-Ends _ fuel enough
  created_first-Ends (raised error) fuel enough = (_, refl)
  created_first-Ends timed_out fuel enough = (_, refl)

  -- A session ends with a result, whatever its agents, its game and its schedule do, when the fuel
  -- exceeds the limit on decisions.
  pub run-Ends :
      (fuel : ℕ) (game : Option String)
      → plan.limits.decisions < fuel
      → Ends (run agents plan fuel game)
  unfolding run
  run-Ends fuel (some error) enough = (_, refl)
  run-Ends fuel none enough = created_first-Ends _ fuel enough
