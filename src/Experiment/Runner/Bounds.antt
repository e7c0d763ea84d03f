-- ===== src/Experiment/Runner/Bounds.antt =====
-- agent_experiment.rs: a session stays within its limits.
use parlando.Common.{ℕ, ◌+◌, ◌≤◌, ◌<◌, ◌≡◌, Option, some, String, inl, inr, List, arith, subst}
use parlando.Runtime.Role.{PlayerRole}
use parlando.Experiment.Limits.{IsUsable}
use parlando.Experiment.Model.{
  Game, SessionPlan, Call, Agents, Run, SessionOutcome, SessionResult, TraceEntry, TrajectoryStep,
  record_failure,
}
use parlando.Experiment.Calls.{Outcome, ok, fails, called}
use parlando.Experiment.Runner.{run, shut_down, summary, shutdown_agents}
use parlando.Experiment.Decision.{count_decision, count_accepted, count_rejected, count_message}
use parlando.Experiment.Runner.Courses.{Course, agents_run, run-Course}
use parlando.Experiment.Invariant.{Fits, noted, IsUnder, IsInvariant}
use parlando.Experiment.Invariant.Loop.{Concludes, drive_session-Concludes}

module _ {G : Game} (agents : Agents G) (plan : SessionPlan G) where
  -- What the counters may be while `x` actions and `y` messages may still be counted.
  pub record IsWithin (x y : ℕ) (r : Run G) : Type 0 where
    pub answered : r.accepted_actions + r.rejected_actions + x ≤ r.decisions
    pub spoken : r.messages + y ≤ r.decisions
    pub decides : r.decisions ≤ plan.limits.decisions
    pub accepts : r.accepted_actions + x ≤ plan.limits.accepted_actions
    pub rejects : r.rejected_actions + x ≤ plan.limits.rejected_actions
    pub sends : r.messages + y ≤ plan.limits.messages

  abbrev Within : G.State → ℕ → ℕ → Run G → Type 0
  Within s x y r = IsWithin x y r

  Within-call :
      (s : G.State) (x y : ℕ) (r : Run G) (c : Call G)
      → Fits (λ _. Unit) s c
      → Within s x y r
      → Within s x y (called c r)
  Within-call s x y r c f h = ground arith

  Within-note :
      (s : G.State) (x y : ℕ) (r : Run G) (t : Option (List (TraceEntry G)))
      (steps : List (TrajectoryStep G))
      → Within s x y r
      → Within s x y (noted t steps r)
  Within-note s x y r t steps h = ground arith

  Within-accepts :
      (s next : G.State) (act : G.Action) (role : PlayerRole) (y : ℕ) (r : Run G)
      → G.apply_action s act role ≡ inr next
      → Within s 1 y r
      → Within next 0 y (count_accepted r)
  Within-accepts s next act role y r legal h = ground arith

  Within-rejects :
      (s : G.State) (y : ℕ) (r : Run G) → Within s 1 y r → Within s 0 y (count_rejected r)
  Within-rejects s y r h = ground arith

  Within-sends : (s : G.State) (x : ℕ) (r : Run G) → Within s x 1 r → Within s x 0 (count_message r)
  Within-sends s x r h = ground arith

  Within-weaken : (s : G.State) (x y : ℕ) (r : Run G) → Within s x y r → Within s 0 0 r
  Within-weaken s x y r h = ground arith

  Within-IsInvariant : IsInvariant plan Within
  Within-IsInvariant = record {
    Reached = λ _. Unit;
    reach = λ s x y r h. tt;
    call = Within-call;
    note = Within-note;
    accepts = Within-accepts;
    rejects = Within-rejects;
    sends = Within-sends;
    weaken = Within-weaken;
  }

  Within-decides :
      (s : G.State) (r : Run G)
      → r.decisions < plan.limits.decisions
      → IsUnder plan r
      → Within s 0 0 r
      → Within s 1 1 (count_decision r)
  Within-decides s r more u h = ground arith

  pub agents_run-IsUnder : IsUsable plan.limits → IsUnder plan (agents_run agents plan)
  agents_run-IsUnder usable = ground arith

  summary-IsWithin :
      (outcome : Outcome G (SessionOutcome G))
      → Concludes agents plan Within Within-IsInvariant Within-decides (some outcome)
      → IsWithin 0 0 (shut_down agents plan (summary agents plan outcome)).run
  unfolding shutdown_agents record_failure
  summary-IsWithin (ok outcome r) (s, h, truth) = ground arith
  summary-IsWithin (fails failure r) (s, h) = ground arith

  Played-IsWithin :
      (fuel : ℕ) (result : SessionResult G)
      → IsUsable plan.limits
      → Course agents plan fuel result
      → IsWithin 0 0 result.run
  Played-IsWithin fuel result usable (inl unplayed) = ground arith
  Played-IsWithin fuel result usable (inr (s, outcome, (initial, e, own))) =
      let h : Concludes agents plan Within Within-IsInvariant Within-decides (some outcome) =
        subst (Concludes agents plan Within Within-IsInvariant Within-decides) e (
          drive_session-Concludes agents plan Within Within-IsInvariant Within-decides fuel s _
            (ground arith) (agents_run-IsUnder usable)) in
      rw own (summary-IsWithin outcome h)

  -- In every result of a session with valid limits no counter exceeds its limit, and no more
  -- actions, nor more messages, are counted than decisions.
  pub run-IsWithin :
      (fuel : ℕ) (game : Option String) (result : SessionResult G)
      → IsUsable plan.limits
      → run agents plan fuel game ≡ some result
      → IsWithin 0 0 result.run
  run-IsWithin fuel game result usable h =
      Played-IsWithin fuel result usable (run-Course agents plan fuel game result h)
