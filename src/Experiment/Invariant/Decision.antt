-- ===== src/Experiment/Invariant/Decision.antt =====
-- agent_experiment.rs: one decision keeps an invariant.
use parlando.Common.{
  ℕ, ◌<◌, ◌≡◌, refl, Bool, true, false, Option, none, some, inl, inr, ◌⊎◌, arith, Bool-cases, leb,
  if◌then◌else◌,
}
use parlando.Runtime.Role.{PlayerRole}
use parlando.Experiment.Schedule.{AgentResponse, AgentSchedule}
use parlando.Experiment.Model.{
  Game, SessionStatus, completed, decision_limit, action_limit, message_limit, rejection_limit,
  deadline, failed, DecisionInput, SessionPlan, Agents, Run, SessionOutcome, limit_outcome,
}
use parlando.Experiment.Calls.{and_then, ask, finish_agents}
use parlando.Experiment.Recording.{decision_input, check_learner_response, record_trace}
use parlando.Experiment.Decision.{
  Attempt, Pass, exits, continues, count_decision, execute, conclude, decide, pass,
}
use parlando.Experiment.Invariant.{
  Ensures, and_then-Ensures, IsUnder, IsInvariant, Somewhere, bind-Keeps, ask-Keeps,
  finish_agents-Keeps,
}
use parlando.Experiment.Invariant.Recording.{decision_input-Keeps, check_learner_response-Keeps}
use parlando.Experiment.Recording.{captures, is_full, only_if}
use parlando.Experiment.Decision.{conclude_with, proceed, next_pass}
use parlando.Experiment.Invariant.Attempts.{Settled, execute-Settled}

module _ {G : Game} (plan : SessionPlan G) (P : G.State → ℕ → ℕ → Run G → Type 0)
    (I : IsInvariant plan P) (agents : Agents G) where
  -- An outcome with a completion is the game's own, and one without is of the loop.
  abbrev pub is_loop_status : SessionStatus → Bool
  is_loop_status completed = false
  is_loop_status failed = false
  is_loop_status _ = true

  abbrev pub Truthful : G.State → SessionStatus → Option G.Completion → Type 0
  Truthful s status none = is_loop_status status ≡ true
  Truthful s status (some completion) = (status ≡ completed) × (G.completion s ≡ some completion)

  abbrev pub Reported : SessionOutcome G → Run G → Type 0
  Reported outcome r = (s : G.State) × P s 0 0 r × Truthful s outcome.status outcome.completion

  abbrev pub Sound : {Memory : Type 0} → Pass G Memory → Run G → Type 0
  Sound (exits outcome) r = Reported outcome r
  Sound (continues s role memory) r = P s 0 0 r × IsUnder plan r

  module _ (schedule : AgentSchedule G.Action) where
    next_pass-Sound :
        (s : G.State) (choice : Option PlayerRole × schedule.Memory) (r : Run G)
        → P s 0 0 r
        → IsUnder plan r
        → Sound (next_pass agents plan s choice) r
    unfolding limit_outcome
    next_pass-Sound s (some role, memory) r h u = (h, u)
    next_pass-Sound s (none, memory) r h u = (s, h, refl)

    branch-Sound :
        (test : Bool) (x y : Pass G schedule.Memory) (r : Run G)
        → (test ≡ true → Sound x r)
        → (test ≡ false → Sound y r)
        → Sound (if test then x else y) r
    branch-Sound true x y r h k = h refl
    branch-Sound false x y r h k = k refl

    limit-Sound :
        (s : G.State) (status : SessionStatus) (r : Run G)
        → is_loop_status status ≡ true
        → P s 0 0 r
        → Reported (limit_outcome status) r
    unfolding limit_outcome
    limit-Sound s status r ordinary h = (s, h, ordinary)

    proceed-Sound :
        (role : PlayerRole) (memory : schedule.Memory) (response : Option (AgentResponse G.Action))
        (attempt : Attempt G) (r : Run G)
        → P attempt.state 0 0 r
        → Ensures
            (Somewhere plan P I)
            Sound
            (proceed agents plan schedule role memory response attempt r)
    unfolding proceed
    proceed-Sound role memory response attempt r h =
        let s = attempt.state in
        branch-Sound (leb plan.limits.accepted_actions r.accepted_actions) _ _ r
          (λ _. limit-Sound s action_limit r refl h)
          (λ accepts.
            branch-Sound (leb plan.limits.messages r.messages) _ _ r
              (λ _. limit-Sound s message_limit r refl h)
              (λ sends.
                branch-Sound (leb plan.limits.rejected_actions r.rejected_actions) _ _ r
                  (λ _. limit-Sound s rejection_limit r refl h)
                  (λ rejects.
                    next_pass-Sound s (schedule.next memory role response attempt.rejection) r h
                      (ground arith))))

    conclude_with-Sound :
        (over : Option G.Completion) (role : PlayerRole) (memory : schedule.Memory)
        (response : Option (AgentResponse G.Action)) (attempt : Attempt G) (r : Run G)
        → P attempt.state 0 0 r
        → (over ≡ none) ⊎ (G.completion attempt.state ≡ over)
        → Ensures
            (Somewhere plan P I)
            Sound
            (conclude_with agents plan schedule over role memory response attempt r)
    conclude_with-Sound none role memory response attempt r h own =
        proceed-Sound role memory response attempt r h
    conclude_with-Sound (some completion) role memory response attempt r h (inl other) = cc
    conclude_with-Sound (some completion) role memory response attempt r h (inr own) =
        bind-Keeps plan P I Sound attempt.state 0 0 (finish_agents agents completion r) _
          (finish_agents-Keeps plan P I agents attempt.state 0 0 r completion own h)
          (λ _ r' h'. (attempt.state, h', (refl, own)))

    conclude-Sound :
        (role : PlayerRole) (memory : schedule.Memory) (response : Option (AgentResponse G.Action))
        (attempt : Attempt G) (r : Run G)
        → Settled plan P I agents attempt r
        → Ensures
            (Somewhere plan P I)
            Sound
            (conclude agents plan schedule role memory response attempt r)
    unfolding conclude
    conclude-Sound role memory response attempt r (h, own) =
        conclude_with-Sound attempt.completed role memory response attempt r h own

    record_trace-Sound :
        (role : PlayerRole) (memory : schedule.Memory) (response : Option (AgentResponse G.Action))
        (attempt : Attempt G) (input : Option (DecisionInput G.Value)) (r : Run G)
        → Settled plan P I agents attempt r
        → Ensures (Somewhere plan P I) Sound (
            and_then
              (record_trace role response attempt.rejection input r)
              (λ _. conclude agents plan schedule role memory response attempt))
    unfolding record_trace
    record_trace-Sound role memory response attempt input r (h, own) =
        conclude-Sound role memory response attempt _
          (I.note attempt.state 0 0 r _ r.trajectory h, own)

    pub decide-Sound :
        (s : G.State) (role : PlayerRole) (memory : schedule.Memory) (r : Run G)
        → P s 1 1 (count_decision r)
        → Ensures (Somewhere plan P I) Sound (decide agents plan schedule s role memory r)
    unfolding decide
    decide-Sound s role memory r h =
        let S : Pass G schedule.Memory → Run G → Type 0 = Sound in
        let affordances = G.available_actions s role in
        bind-Keeps plan P I S s 1 1 (decision_input plan s role affordances (count_decision r)) _
          (decision_input-Keeps plan P I s 1 1 role affordances _ h)
          (λ input r1 h1.
            let learner_input = only_if (captures plan role) input in
            bind-Keeps plan P I S s 1 1 (ask agents role affordances r1) _
              (ask-Keeps plan P I agents s 1 1 role r1 h1)
              (λ response r2 h2.
                bind-Keeps plan P I S s 1 1
                  (check_learner_response plan role learner_input response r2) _
                  (check_learner_response-Keeps plan P I s 1 1 role learner_input response r2 h2)
                  (λ _ r3 h3.
                    and_then-Ensures (Somewhere plan P I) (Settled plan P I agents) S
                      (execute agents plan s role response learner_input r3) _
                      (execute-Settled plan P I agents s role response learner_input r3 h3)
                      (λ attempt r4 h4.
                        record_trace-Sound role memory response attempt
                          (only_if (is_full plan.trace) input) r4 h4))))

    -- A pass that starts below every limit.
    pub pass-Sound :
        (s : G.State) (role : PlayerRole) (memory : schedule.Memory) (r : Run G)
        → (r.decisions < plan.limits.decisions → P s 1 1 (count_decision r))
        → P s 0 0 r
        → Ensures (Somewhere plan P I) Sound (pass agents plan schedule s role memory r)
    unfolding pass
    pass-Sound s role memory r counted h = elim (Bool-cases (agents.past_deadline r.calls)) [
      | inl late ↦ rw late (limit-Sound s deadline r refl h)
      | inr early ↦ rw early (elim (Bool-cases (leb plan.limits.decisions r.decisions)) [
        | inl enough ↦ rw enough (limit-Sound s decision_limit r refl h)
        | inr more ↦ rw more (decide-Sound s role memory r (counted (ground arith)))
      ])
    ]
