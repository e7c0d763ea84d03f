-- ===== src/Experiment/Recording.antt =====
-- agent_experiment.rs: what a session records of its decisions, for traces and for training.
use parlando.Common.{
  ℕ, Bool, true, false, List, [], ◌∷◌, ◌++◌, Option, none, some, String, inl, inr, ◌⊎◌, ◌==◌,
  eq_String, if◌then◌else◌, is_some, not, ◌&&◌, ◌||◌,
}
use parlando.Runtime.Role.{PlayerRole, ActionRejection}
use parlando.Experiment.Schedule.{AgentResponse, action}
use parlando.Experiment.Model.{
  Game, TraceLevel, full, DecisionInput, TraceEntry, TrajectoryStep, TrainingCapture, SessionPlan,
  seat_name, Run, SessionFailure,
}
use parlando.Experiment.Calls.{ok, M, callback_failure, ◌>>=◌, pure, fail}

abbrev pub is_full : TraceLevel → Bool
is_full full = true
is_full _ = false

abbrev pub only_if : {A : Type 0} → Bool → Option A → Option A
only_if test x = if test then x else none

pub data TrajectoryOutcome (G : Game) : Type 0 where
  accepted : (before : G.State) → Option G.Completion → TrajectoryOutcome G
  rejected : ActionRejection → TrajectoryOutcome G

abbrev pub training_response_failure : PlayerRole → SessionFailure
training_response_failure role =
    callback_failure "training_response" role
      "the v1 RL trajectory contract requires action-only learner responses"

abbrev pub is_action_only : {Action : Type 0} → Option (AgentResponse Action) → Bool
is_action_only (some (action act)) = true
is_action_only _ = false

module _ {G : Game} where
  abbrev pub rejection_of : TrajectoryOutcome G → Option ActionRejection
  rejection_of (accepted before completion) = none
  rejection_of (rejected error) = some error

  abbrev pub completion_of : TrajectoryOutcome G → Option G.Completion
  completion_of (accepted before completion) = completion
  completion_of (rejected error) = none

  abbrev pub rewards_of :
      TrainingCapture G → G.State → PlayerRole → G.Action → TrajectoryOutcome G → Option G.Rewards
  rewards_of capture next actor act (accepted before completion) =
      some (capture.reward before next actor act completion)
  rewards_of capture next actor act (rejected error) = none

  -- `.map_err(|error| SessionFailure { phase, role: Some(role), … })`
  abbrev pub serialized : String → PlayerRole → String ⊎ G.Value → M G G.Value
  serialized phase role (inl error) = fail (callback_failure phase role error)
  serialized phase role (inr value) = pure value

  abbrev pub learns : Option (TrainingCapture G) → String → Bool
  learns none name = false
  learns (some capture) name = capture.learner == name

  module _ (plan : SessionPlan G) where
    abbrev pub captures : PlayerRole → Bool
    captures role = learns plan.training_capture (seat_name plan role)

    unfoldable pub serialized_input :
        String → G.State → PlayerRole → G.Affordances → M G (Option (DecisionInput G.Value))
    serialized_input phase state role affordances = do
      observation ← serialized phase role (G.observation_json (G.observation state role))
      available_actions ← serialized phase role (G.affordances_json affordances)
      pure (some (record { observation = observation; available_actions = available_actions }))

    unfoldable pub decision_input :
        G.State → PlayerRole → G.Affordances → M G (Option (DecisionInput G.Value))
    unfolding serialized_input
    decision_input state role affordances =
        if captures role || is_full plan.trace
        then serialized_input (if captures role then "trajectory" else "trace") state role
            affordances
        else pure none

    unfoldable pub check_learner_response :
        PlayerRole
        → Option (DecisionInput G.Value)
        → Option (AgentResponse G.Action)
        → M G (Unit {0})
    check_learner_response role learner_input response =
        if is_some learner_input && not (is_action_only response)
        then fail (training_response_failure role)
        else pure tt

    unfoldable pub trajectory_step :
        TrainingCapture G
        → ℕ
        → PlayerRole
        → DecisionInput G.Value
        → G.Value
        → Option ActionRejection
        → Option G.Rewards
        → G.Value
        → Bool
        → TrajectoryStep G
    trajectory_step capture decision actor input act rejection rewards next_observation terminal =
        record {
          run_id = plan.run_id;
          plan_id = plan.plan_id;
          decision = decision;
          scenario = plan.scenario;
          role = actor;
          agent = capture.learner;
          checkpoint = capture.checkpoint;
          reward = capture.reward_kind;
          reward_version = capture.reward_version;
          observation = input.observation;
          available_actions = input.available_actions;
          action = act;
          accepted = not (is_some rejection);
          rejection = rejection;
          rewards = rewards;
          next_observation = next_observation;
          terminal = terminal;
        }

    abbrev pub pushed : TrajectoryStep G → Run G → Run G
    pushed step r = record r { trajectory = r.trajectory ++ step ∷ [] }

    unfoldable pub record_captured :
        TrainingCapture G
        → G.State
        → PlayerRole
        → G.Action
        → DecisionInput G.Value
        → TrajectoryOutcome G
        → M G (Unit {0})
    unfolding trajectory_step
    record_captured capture next_state actor act input outcome = do
      next_observation ←
          serialized "trajectory" actor (G.observation_json (G.observation next_state actor))
      value ← serialized "trajectory" actor (G.action_json act)
      λ r. ok tt (
          pushed
            (trajectory_step capture r.decisions actor input value (rejection_of outcome)
              (rewards_of capture next_state actor act outcome) next_observation
              (is_some (completion_of outcome)))
            r)

    abbrev pub record_with :
        Option (TrainingCapture G)
        → G.State
        → PlayerRole
        → G.Action
        → Option (DecisionInput G.Value)
        → TrajectoryOutcome G
        → M G (Unit {0})
    record_with (some capture) next_state actor act (some input) outcome =
        record_captured capture next_state actor act input outcome
    record_with none next_state actor act input outcome = pure tt
    record_with (some capture) next_state actor act none outcome = pure tt

    unfoldable pub record_trajectory :
        G.State
        → PlayerRole
        → G.Action
        → Option (DecisionInput G.Value)
        → TrajectoryOutcome G
        → M G (Unit {0})
    unfolding record_captured
    record_trajectory next_state actor act input outcome =
        record_with plan.training_capture next_state actor act input outcome

  abbrev pub traced : TraceEntry G → Option (List (TraceEntry G)) → Option (List (TraceEntry G))
  traced entry none = none
  traced entry (some entries) = some (entries ++ entry ∷ [])

  unfoldable pub record_trace :
      PlayerRole
      → Option (AgentResponse G.Action)
      → Option ActionRejection
      → Option (DecisionInput G.Value)
      → M G (Unit {0})
  record_trace role response rejection context r = ok tt (record r {
    trace =
        traced
          (record {
            decision = r.decisions;
            role = role;
            response = response;
            rejection = rejection;
            input = context;
          })
          r.trace;
  })
