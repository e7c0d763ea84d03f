-- ===== src/Experiment/Model.antt =====
-- agent_experiment.rs, game.rs and agents.rs: what a headless session works on. The game is a
-- parameter, and so are its encodings to JSON, which give an error's text where they fail. The
-- agents are arbitrary programs with a clock beside them: what a callback answers is a function of
-- all calls made so far, the answered one included, and so is the test of the deadline.

use parlando.Common.{ℕ, Bool, true, false, List, Option, none, some, String, ◌⊎◌, eq_String}
use parlando.Common.Text.{take_chars}
use parlando.Runtime.Role.{PlayerRole, a, b, ActionRejection}
use parlando.Experiment.Limits.{SessionLimits}
use parlando.Experiment.Schedule.{AgentResponse, AgentSchedule}

-- The trait `Game`; `Context` holds the configuration, the seed and the secrets.
pub record Game : Type 1 where
  pub Context : Type 0
  pub State : Type 0
  pub Action : Type 0
  pub Observation : Type 0
  pub Affordances : Type 0
  pub Completion : Type 0
  pub Value : Type 0
  pub Rewards : Type 0
  pub initial_state : Context → String ⊎ State
  pub apply_action : State → Action → PlayerRole → ActionRejection ⊎ State
  pub completion : State → Option Completion
  pub observation : State → PlayerRole → Observation
  pub available_actions : State → PlayerRole → Affordances
  pub observation_json : Observation → String ⊎ Value
  pub affordances_json : Affordances → String ⊎ Value
  pub action_json : Action → String ⊎ Value

pub data SessionStatus : Type 0 where
  completed quiescent decision_limit action_limit message_limit rejection_limit : SessionStatus
  deadline failed : SessionStatus

unfoldable pub is_success : SessionStatus → Bool
is_success completed = true
is_success quiescent = true
is_success _ = false

pub data TraceLevel : Type 0 where
  results decisions full : TraceLevel

pub record DecisionInput (Value : Type 0) : Type 0 where
  pub observation : Value
  pub available_actions : Value

pub record TraceEntry (G : Game) : Type 0 where
  pub decision : ℕ
  pub role : PlayerRole
  pub response : Option (AgentResponse G.Action)
  pub rejection : Option ActionRejection
  pub input : Option (DecisionInput G.Value)

pub record TrajectoryStep (G : Game) : Type 0 where
  pub run_id : String
  pub plan_id : String
  pub decision : ℕ
  pub scenario : String
  pub role : PlayerRole
  pub agent : String
  pub checkpoint : String
  pub reward : String
  pub reward_version : String
  pub observation : G.Value
  pub available_actions : G.Value
  pub action : G.Value
  pub accepted : Bool
  pub rejection : Option ActionRejection
  pub rewards : Option G.Rewards
  pub next_observation : G.Value
  pub terminal : Bool

-- `reward` is the reward function at the experiment's parameters.
pub record TrainingCapture (G : Game) : Type 0 where
  pub learner : String
  pub checkpoint : String
  pub reward : G.State → G.State → PlayerRole → G.Action → Option G.Completion → G.Rewards
  pub reward_kind : String
  pub reward_version : String

-- Of a plan, what the runner reads; the two seats' agents by their names in the experiment.
pub record SessionPlan (G : Game) : Type 1 where
  pub run_id : String
  pub plan_id : String
  pub scenario : String
  pub context : G.Context
  pub seat_a : String
  pub seat_b : String
  pub schedule : String ⊎ AgentSchedule G.Action
  pub limits : SessionLimits
  pub trace : TraceLevel
  pub training_capture : Option (TrainingCapture G)

abbrev pub seat_name : {G : Game} → SessionPlan G → PlayerRole → String
seat_name plan a = plan.seat_a
seat_name plan b = plan.seat_b

-- The calls that the runner makes of an agent, the role's agent first.
pub data Call (G : Game) : Type 0 where
  create : PlayerRole → Call G
  start : PlayerRole → G.Observation → Call G
  respond : PlayerRole → G.Affordances → Call G
  observe_transition : PlayerRole → PlayerRole → G.Action → G.Observation → Call G
  observe_message : PlayerRole → PlayerRole → String → Call G
  finish : PlayerRole → G.Completion → Call G
  shutdown : PlayerRole → Call G

-- What `timeout(…, callback)` gives.
pub data Answer (A : Type 0) : Type 0 where
  done : A → Answer A
  raised : String → Answer A
  timed_out : Answer A

pub record Agents (G : Game) : Type 0 where
  pub callback : List (Call G) → Answer (Unit {0})
  pub response : List (Call G) → Answer (Option (AgentResponse G.Action))
  pub past_deadline : List (Call G) → Bool

-- The counters and records of a `SessionResult`, with the calls made so far, the last one first.
pub record Run (G : Game) : Type 0 where
  pub calls : List (Call G)
  pub decisions : ℕ
  pub accepted_actions : ℕ
  pub rejected_actions : ℕ
  pub messages : ℕ
  pub trace : Option (List (TraceEntry G))
  pub trajectory : List (TrajectoryStep G)

pub record SessionFailure : Type 0 where
  pub phase : String
  pub role : Option PlayerRole
  pub error : String

pub record SessionOutcome (G : Game) : Type 0 where
  pub status : SessionStatus
  pub completion : Option G.Completion

-- The rest of a `SessionResult`.
pub record SessionResult (G : Game) : Type 0 where
  pub status : SessionStatus
  pub completion : Option G.Completion
  pub failure_phase : Option String
  pub failure_role : Option PlayerRole
  pub diagnostic : Option String
  pub cleanup_diagnostics : List String
  pub run : Run G

-- `limit_outcome`.
unfoldable pub limit_outcome : {G : Game} → SessionStatus → SessionOutcome G
limit_outcome status = record { status = status; completion = none }

-- `diagnostic.chars().take(4096)`.
abbrev pub bounded : String → String
bounded text = take_chars 4096 text

unfoldable pub record_failure :
    {G : Game} → SessionResult G → String → Option PlayerRole → String → SessionResult G
record_failure result phase role error = record result {
  status = failed;
  failure_phase = some phase;
  failure_role = role;
  diagnostic = some (bounded error);
}
