-- ===== src/Experiment/Decision.antt =====
-- agent_experiment.rs: one decision of a headless session, from the tests at the head of the loop to
-- the schedule's choice of the next role.
use parlando.Common.{◌+◌, Option, none, some, String, inl, inr, ◌⊎◌, leb, if◌then◌else◌}
use parlando.Runtime.Role.{PlayerRole, ActionRejection}
use parlando.Experiment.Schedule.{AgentResponse, action, message, action_and_message, AgentSchedule}
use parlando.Experiment.Model.{
  Game, completed, quiescent, decision_limit, action_limit, message_limit, rejection_limit,
  deadline, DecisionInput, SessionPlan, Agents, Run, SessionOutcome, limit_outcome,
}
use parlando.Experiment.Calls.{
  ok, M, ◌>>=◌, ◌>>◌, pure, modify, ask, finish_agents, observe_transition_agents, deliver_message,
}
use parlando.Experiment.Recording.{
  captures, is_full, only_if, decision_input, check_learner_response, record_trajectory,
  record_trace, accepted, rejected,
}

-- `ActionAttempt`, with the state that `*state = next` leaves.
pub record Attempt (G : Game) : Type 0 where
  pub state : G.State
  pub rejection : Option ActionRejection
  pub completed : Option G.Completion

-- How one pass of the loop ends: with `return`, or with the next role.
pub data Pass (G : Game) (Memory : Type 0) : Type 0 where
  exits : SessionOutcome G → Pass G Memory
  continues : G.State → PlayerRole → Memory → Pass G Memory

module _ {G : Game} where
  abbrev pub count_decision : Run G → Run G
  count_decision r = record r { decisions = r.decisions + 1 }

  abbrev pub count_accepted : Run G → Run G
  count_accepted r = record r { accepted_actions = r.accepted_actions + 1 }

  abbrev pub count_rejected : Run G → Run G
  count_rejected r = record r { rejected_actions = r.rejected_actions + 1 }

  abbrev pub count_message : Run G → Run G
  count_message r = record r { messages = r.messages + 1 }

module _ {G : Game} (agents : Agents G) (plan : SessionPlan G) where
  unfoldable pub send_after : PlayerRole → Option G.Completion → Option String → M G (Unit {0})
  send_after actor none (some text) = do deliver_message agents actor text; modify count_message
  send_after actor (some completion) text = pure tt
  send_after actor none none = pure tt

  abbrev pub attempt_accepted :
      G.State
      → PlayerRole
      → G.Action
      → Option String
      → Option (DecisionInput G.Value)
      → G.State
      → M G (Attempt G)
  attempt_accepted state actor act text input next = do
    modify count_accepted
    observe_transition_agents agents next actor act
    record_trajectory plan next actor act input (accepted state (G.completion next))
    send_after actor (G.completion next) text
    pure (record { state = next; rejection = none; completed = G.completion next })

  abbrev pub attempt_rejected :
      G.State
      → PlayerRole
      → G.Action
      → Option (DecisionInput G.Value)
      → ActionRejection
      → M G (Attempt G)
  attempt_rejected state actor act input error = do
    modify count_rejected
    record_trajectory plan state actor act input (rejected error)
    pure (record { state = state; rejection = some error; completed = none })

  abbrev pub attempt_with :
      G.State
      → PlayerRole
      → G.Action
      → Option String
      → Option (DecisionInput G.Value)
      → ActionRejection ⊎ G.State
      → M G (Attempt G)
  attempt_with state actor act text input (inl error) = attempt_rejected state actor act input error
  attempt_with state actor act text input (inr next) =
      attempt_accepted state actor act text input next

  unfoldable pub apply_action :
      G.State
      → PlayerRole
      → G.Action
      → Option String
      → Option (DecisionInput G.Value)
      → M G (Attempt G)
  apply_action state actor act text input =
      attempt_with state actor act text input (G.apply_action state act actor)

  abbrev pub unchanged : G.State → Attempt G
  unchanged state = record { state = state; rejection = none; completed = none }

  unfoldable pub execute :
      G.State
      → PlayerRole
      → Option (AgentResponse G.Action)
      → Option (DecisionInput G.Value)
      → M G (Attempt G)
  execute state role none input = pure (unchanged state)
  execute state role (some (action act)) input = apply_action state role act none input
  execute state role (some (action_and_message act text)) input =
      apply_action state role act (some text) input
  execute state role (some (message text)) input = do
    deliver_message agents role text
    modify count_message
    pure (unchanged state)

  abbrev pub next_pass : {Memory : Type 0} → G.State → Option PlayerRole × Memory → Pass G Memory
  next_pass state (some role, memory) = continues state role memory
  next_pass state (none, memory) = exits (limit_outcome quiescent)

  module _ (schedule : AgentSchedule G.Action) where
    -- The limits, and then the schedule.
    unfoldable pub proceed :
        PlayerRole
        → schedule.Memory
        → Option (AgentResponse G.Action)
        → Attempt G
        → M G (Pass G schedule.Memory)
    proceed role memory response attempt r =
        ok
          (if leb plan.limits.accepted_actions r.accepted_actions
            then exits (limit_outcome action_limit)
            else if leb plan.limits.messages r.messages
            then exits (limit_outcome message_limit)
            else if leb plan.limits.rejected_actions r.rejected_actions
            then exits (limit_outcome rejection_limit)
            else next_pass attempt.state (schedule.next memory role response attempt.rejection))
          r

    abbrev pub conclude_with :
        Option G.Completion
        → PlayerRole
        → schedule.Memory
        → Option (AgentResponse G.Action)
        → Attempt G
        → M G (Pass G schedule.Memory)
    conclude_with (some completion) role memory response attempt = do
      finish_agents agents completion
      pure (exits (record { status = completed; completion = some completion }))
    conclude_with none role memory response attempt = proceed role memory response attempt

    unfoldable pub conclude :
        PlayerRole
        → schedule.Memory
        → Option (AgentResponse G.Action)
        → Attempt G
        → M G (Pass G schedule.Memory)
    unfolding proceed
    conclude role memory response attempt =
        conclude_with attempt.completed role memory response attempt

    unfoldable pub decide : G.State → PlayerRole → schedule.Memory → M G (Pass G schedule.Memory)
    decide state role memory = do
      modify count_decision
      let affordances = G.available_actions state role
      input ← decision_input plan state role affordances
      let learner_input = only_if (captures plan role) input
      response ← ask agents role affordances
      check_learner_response plan role learner_input response
      attempt ← execute state role response learner_input
      record_trace role response attempt.rejection (only_if (is_full plan.trace) input)
      conclude role memory response attempt

    -- One pass of the decision loop.
    unfoldable pub pass : G.State → PlayerRole → schedule.Memory → M G (Pass G schedule.Memory)
    pass state role memory r =
        if agents.past_deadline r.calls
        then ok (exits (limit_outcome deadline)) r
        else if leb plan.limits.decisions r.decisions
        then ok (exits (limit_outcome decision_limit)) r
        else decide state role memory r
