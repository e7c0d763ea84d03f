-- ===== src/Experiment/Runner/Courses.antt =====
-- agent_experiment.rs: the courses that a session can take. Either it ends before its agents play, or it
-- is the summary of what the decision loop gives, with both agents shut down.
use parlando.Common.{
  ℕ, ◌≡◌, refl, Bool, true, false, Option, none, some, String, inl, inr, ◌⊎◌, arith, all, is_some,
}
use parlando.Runtime.Role.{a, b}
use parlando.Experiment.Model.{
  Game, failed, SessionPlan, Call, create, shutdown, Answer, done, raised, timed_out, Agents, Run,
  SessionOutcome, SessionResult, record_failure,
}
use parlando.Experiment.Calls.{Outcome, called}
use parlando.Experiment.Runner.{
  drive_session, run, run_agents, run_from, create_second, new_run, created, concluded, shut_down,
  shut_first, summary, shutdown_agents, shutdown_agent, factory_failure,
}

-- The calls that construct an agent or shut it down.
abbrev pub is_lifecycle_call : {G : Game} → Call G → Bool
is_lifecycle_call (create role) = true
is_lifecycle_call (shutdown role) = true
is_lifecycle_call _ = false

module _ {G : Game} (agents : Agents G) (plan : SessionPlan G) where
  abbrev pub agents_run : Run G
  agents_run = called (create b) (called (create a) (new_run agents plan))

  -- The session did not come to play: of the counters and the records, nothing has changed.
  pub record IsUnplayed (result : SessionResult G) : Type 0 where
    pub fails : result.status ≡ failed
    pub incomplete : result.completion ≡ none
    pub undecided : result.run.decisions ≡ 0
    pub unaccepted : result.run.accepted_actions ≡ 0
    pub unrejected : result.run.rejected_actions ≡ 0
    pub unsent : result.run.messages ≡ 0
    pub unspoken : all is_lifecycle_call result.run.calls ≡ true
    pub attributed : is_some result.failure_phase ≡ true

  -- The session played from the state.
  abbrev pub Played : ℕ → SessionResult G → G.State → Outcome G (SessionOutcome G) → Type 0
  Played fuel result s outcome =
      (G.initial_state plan.context ≡ inr s)
      × (drive_session agents plan fuel s agents_run ≡ some outcome)
      × (result ≡ shut_down agents plan (summary agents plan outcome))

  abbrev pub Course : ℕ → SessionResult G → Type 0
  Course fuel result =
      IsUnplayed result
      ⊎ ((s : G.State) × (outcome : Outcome G (SessionOutcome G)) × Played fuel result s outcome)

  concluded-Course :
      (fuel : ℕ) (result : SessionResult G) (s : G.State)
      (o : Option (Outcome G (SessionOutcome G)))
      → G.initial_state plan.context ≡ inr s
      → drive_session agents plan fuel s agents_run ≡ o
      → concluded agents plan o ≡ some result
      → Course fuel result
  concluded-Course fuel result s none initial e h = cc
  concluded-Course fuel result s (some outcome) initial e h = inr (s, outcome, (initial, e, cc))

  run_from-Course :
      (initial : String ⊎ G.State) (fuel : ℕ) (result : SessionResult G)
      → G.initial_state plan.context ≡ initial
      → run_from agents plan initial fuel agents_run ≡ some result
      → Course fuel result
  unfolding shutdown_agents record_failure
  run_from-Course (inl error) fuel result initial h = inl (ground arith)
  run_from-Course (inr s) fuel result initial h = concluded-Course fuel result s _ initial refl h

  created_second-Course :
      (answer : Answer (Unit {0})) (fuel : ℕ) (result : SessionResult G)
      → created answer
          (λ error. some (shut_first agents plan (factory_failure agents plan b agents_run error)))
          (run_agents agents plan fuel agents_run)
        ≡ some result
      → Course fuel result
  unfolding run_agents shutdown_agent record_failure
  created_second-Course (done _) fuel result h =
      run_from-Course (G.initial_state plan.context) fuel result refl h
  created_second-Course (raised error) fuel result h = inl (ground arith)
  created_second-Course timed_out fuel result h = inl (ground arith)

  created_first-Course :
      (answer : Answer (Unit {0})) (fuel : ℕ) (result : SessionResult G)
      → created answer
          (λ error.
            some (factory_failure agents plan a (called (create a) (new_run agents plan)) error))
          (create_second agents plan fuel (called (create a) (new_run agents plan)))
        ≡ some result
      → Course fuel result
  unfolding record_failure
  created_first-Course (done _) fuel result h = created_second-Course _ fuel result h
  created_first-Course (raised error) fuel result h = inl (ground arith)
  created_first-Course timed_out fuel result h = inl (ground arith)

  pub run-Course :
      (fuel : ℕ) (game : Option String) (result : SessionResult G)
      → run agents plan fuel game ≡ some result
      → Course fuel result
  unfolding run record_failure
  run-Course fuel (some error) result h = inl (ground arith)
  run-Course fuel none result h = created_first-Course _ fuel result h
