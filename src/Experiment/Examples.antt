-- ===== src/Experiment/Examples.antt =====
-- agent_experiment.rs: a small session, on which the theorems are used.
use parlando.Common.{
  ℕ, ◌+◌, ◌≡◌, refl, true, false, List, [], ◌∷◌, Option, none, some, inl, inr, leb, if◌then◌else◌,
  arith, All,
}
use parlando.Runtime.Role.{a, b, ActionRejection}
use parlando.Experiment.Limits.{default_limits, IsUsable}
use parlando.Experiment.Schedule.{
  AgentResponse, action, action_and_message, alternate_after_action, new, next_after_action,
  next_every_response,
}
use parlando.Experiment.Schedule.Quiescence.{stops, both_yield, stops-both_yield}
use parlando.Experiment.Model.{
  Game, decisions, SessionPlan, Call, respond, Answer, done, Agents, SessionResult, limit_outcome,
}
use parlando.Experiment.Calls.{
  callback, ask, start_agents, finish_agents, observe_transition_agents, deliver_message,
}
use parlando.Experiment.Recording.{
  decision_input, check_learner_response, record_trajectory, record_trace,
}
use parlando.Experiment.Decision.{apply_action, execute, send_after, conclude, decide, pass}
use parlando.Experiment.Runner.{
  run, run_agents, drive_session, drive_loop, shutdown_agents, shutdown_agent, unfinished, new_run,
}
use parlando.Experiment.Runner.Termination.{Ends, run-Ends}
use parlando.Experiment.Runner.Bounds.{IsWithin, run-IsWithin}
use parlando.Experiment.Runner.Play.{Earned, run-Earned, Told, run-Told}
use parlando.Experiment.Runner.Shutdown.{IsShut, run-IsShut}
use parlando.Experiment.Runner.Failure.{IsConsistent, run-IsConsistent}

-- Two players count to two together.
abbrev counting : Game
counting = record {
  Context = ℕ;
  State = ℕ;
  Action = ℕ;
  Observation = ℕ;
  Affordances = ℕ;
  Completion = ℕ;
  Value = ℕ;
  Rewards = ℕ;
  initial_state = λ context. inr context;
  apply_action = λ state act role.
      if leb act 0 then inl (record { code = "too_small" }) else inr (state + act);
  completion = λ state. if leb 2 state then some state else none;
  observation = λ state role. state;
  available_actions = λ state role. state;
  observation_json = λ seen. inr seen;
  affordances_json = λ affordances. inr affordances;
  action_json = λ act. inr act;
}

abbrev answer_of : List (Call counting) → Answer (Option (AgentResponse ℕ))
answer_of (respond a affordances ∷ calls) = done (some (action_and_message 1 "one"))
answer_of (respond b affordances ∷ calls) = done (some (action 1))
answer_of _ = done none

abbrev counters : Agents counting
counters = record {
  callback = λ calls. done tt;
  response = answer_of;
  past_deadline = λ calls. false;
}

abbrev plan : SessionPlan counting
unfolding default_limits alternate_after_action
plan = record {
  run_id = "run";
  plan_id = "plan";
  scenario = "two";
  context = 0;
  seat_a = "first";
  seat_b = "second";
  schedule = inr (alternate_after_action ℕ a);
  limits = default_limits;
  trace = decisions;
  training_capture = none;
}

abbrev or_unfinished : Option (SessionResult counting) → SessionResult counting
or_unfinished none = unfinished counters plan (new_run counters plan)
or_unfinished (some result) = result

abbrev counted : SessionResult counting
counted = or_unfinished (run counters plan 201 none)

limits-IsUsable : IsUsable plan.limits
unfolding plan default_limits
limits-IsUsable = omega arith

ran : run counters plan 201 none ≡ some counted
unfolding plan run run_agents drive_session drive_loop pass decide decision_input ask
    check_learner_response execute apply_action callback start_agents finish_agents
    observe_transition_agents deliver_message record_trajectory send_after record_trace conclude
    shutdown_agents shutdown_agent next_after_action new alternate_after_action default_limits
    limit_outcome
ran = refl

counted_completion : counted.completion ≡ some 2
unfolding plan run run_agents drive_session drive_loop pass decide decision_input ask
    check_learner_response execute apply_action callback start_agents finish_agents
    observe_transition_agents deliver_message record_trajectory send_after record_trace conclude
    shutdown_agents shutdown_agent next_after_action new alternate_after_action default_limits
    limit_outcome
counted_completion = refl

run-Ends_example : Ends (run counters plan 201 none)
unfolding plan default_limits
run-Ends_example = run-Ends counters plan 201 none (omega arith)

run-IsWithin_example : IsWithin counters plan 0 0 counted.run
run-IsWithin_example = run-IsWithin counters plan 201 none counted limits-IsUsable ran

run-Earned_example : Earned counters plan counted 2
run-Earned_example =
    run-Earned counters plan 201 none counted 2 limits-IsUsable ran counted_completion

from_zero : counting.initial_state plan.context ≡ inr 0
unfolding plan
from_zero = refl

run-Told_example : All (Told {G = counting} 0) counted.run.calls
run-Told_example = run-Told counters plan 201 none counted 0 limits-IsUsable from_zero ran

run-IsShut_example : IsShut counters plan b counted.run.calls
run-IsShut_example = run-IsShut counters plan b 201 none counted limits-IsUsable ran

run-IsConsistent_example : IsConsistent counted
run-IsConsistent_example = run-IsConsistent counters plan 201 none counted limits-IsUsable ran

abbrev talk : List (Option (AgentResponse ℕ) × Option ActionRejection)
talk = (none, none) ∷ (some (action 1), none) ∷ (none, none) ∷ (none, none) ∷ []

stops-both_yield_example :
    (stops next_every_response (new a) a talk ≡ both_yield false talk)
    × (stops next_after_action (new a) a talk ≡ both_yield false talk)
stops-both_yield_example = stops-both_yield a talk

talk_stops : both_yield false talk ≡ true
talk_stops = refl
