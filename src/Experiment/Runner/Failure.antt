-- ===== src/Experiment/Runner/Failure.antt =====
-- agent_experiment.rs: what the status of a result says of its other fields.
use parlando.Common.{ℕ, ◌≡◌, ◌≢◌, true, Option, none, some, String, inl, inr, arith}
use parlando.Experiment.Limits.{IsUsable}
use parlando.Experiment.Model.{
  Game, SessionStatus, completed, failed, SessionPlan, Agents, SessionOutcome, SessionResult,
  record_failure,
}
use parlando.Experiment.Calls.{Outcome, ok, fails}
use parlando.Experiment.Runner.{run, shut_down, summary, shutdown_agents}
use parlando.Experiment.Runner.Courses.{Course, run-Course}
use parlando.Experiment.Invariant.Decision.{Truthful}
use parlando.Common.{is_some, ◌↔◌}
use parlando.Experiment.Runner.Play.{Fair, Fair-IsInvariant, Good, Played-Good}

-- A completed session has a completion and no failure, a failed one a failure and no completion,
-- and any other neither.
pub record IsConsistent {G : Game} (result : SessionResult G) : Type 0 where
  pub completes : (result.status ≡ completed) ↔ (is_some result.completion ≡ true)
  pub fails : (result.status ≡ failed) ↔ (is_some result.failure_phase ≡ true)

module _ {G : Game} (agents : Agents G) (plan : SessionPlan G) where
  Truthful-status :
      (from s : G.State) (status : SessionStatus) (o : Option G.Completion)
      → Truthful plan (Fair agents plan from) (Fair-IsInvariant agents plan from) agents s status o
      → (status ≢ failed) × ((status ≡ completed) ↔ (is_some o ≡ true))
  Truthful-status from s status none truth = ground arith
  Truthful-status from s status (some completion) truth = ground arith

  summary-IsConsistent :
      (outcome : Outcome G (SessionOutcome G)) (from : G.State)
      → Good agents plan from outcome
      → IsConsistent (shut_down agents plan (summary agents plan outcome))
  unfolding shutdown_agents record_failure
  summary-IsConsistent (ok outcome r) from (s, h, truth) =
      let (fine, ends) = Truthful-status from s outcome.status outcome.completion truth in
      record { completes = ends; fails = ground arith }
  summary-IsConsistent (fails failure r) from h = ground arith

  Course-IsConsistent :
      (fuel : ℕ) (result : SessionResult G)
      → IsUsable plan.limits
      → Course agents plan fuel result
      → IsConsistent result
  Course-IsConsistent fuel result usable (inl unplayed) = ground arith
  Course-IsConsistent fuel result usable (inr (from, outcome, (initial, ran, own))) = rw own (
      summary-IsConsistent outcome from
        (Played-Good agents plan fuel result from outcome usable (initial, ran, own)))

  -- A result has a completion exactly when its status is completed, and names the phase of a failure
  -- exactly when its status is failed.
  pub run-IsConsistent :
      (fuel : ℕ) (game : Option String) (result : SessionResult G)
      → IsUsable plan.limits
      → run agents plan fuel game ≡ some result
      → IsConsistent result
  run-IsConsistent fuel game result usable h =
      Course-IsConsistent fuel result usable (run-Course agents plan fuel game result h)
