-- ===== src/Runtime/Session/Model.antt =====
-- storage.rs, protocol.rs and config.rs: the records of a live session. The game is a parameter: its
-- operations, and its encodings to JSON, which give `none` where serialization fails. A time is a
-- string that the caller reads off the clock. Of an experiment's configuration, the fields that the
-- sessions read.
use parlando.Common.{
  ℕ, Bool, true, false, ◌&&◌, not, List, Option, String, Map, ◌==◌, eq_String, ◌⊎◌,
}
use parlando.Common.Int.{ℤ}
use parlando.Runtime.Role.{PlayerRole, ActionRejection}

pub record Game : Type 1 where
  pub State : Type 0
  pub Action : Type 0
  pub Completion : Type 0
  pub Value : Type 0
  pub apply_action : State → Action → PlayerRole → ActionRejection ⊎ State
  pub completion : State → Option Completion
  pub observation : State → PlayerRole → Option Value
  pub transition_metadata : State → State → Action → PlayerRole → Value
  pub state_json : State → Option Value
  pub action_json : Action → Option Value
  pub completion_json : Completion → Option Value

pub data ParticipantOutcomeKind : Type 0 where
  completed left_waiting_room left_game connection_lost partner_left : ParticipantOutcomeKind
  partner_unavailable idle_limit_reached technical_failure : ParticipantOutcomeKind
  lifetime_limit_reached : ParticipantOutcomeKind

pub data SessionEndCause : Type 0 where
  game_completed : SessionEndCause
  participant_left : (actor : String) → SessionEndCause
  no_partner : SessionEndCause
  reconnect_timed_out : (disconnected_role : String) → SessionEndCause
  idle_timed_out lifetime_timed_out technical : SessionEndCause

pub record RecruitmentHandoff : Type 0 where
  pub provider : String
  pub code : String
  pub url : String

pub record ParticipantResult (Value : Type 0) : Type 0 where
  pub outcome : ParticipantOutcomeKind
  pub reason : String
  pub completion : Option Value
  pub final_observation : Option Value
  pub handoff : Option RecruitmentHandoff

pub record SessionEnd (Value : Type 0) : Type 0 where
  pub cause : SessionEndCause
  pub completion : Option Value
  pub participant_results : Map String (ParticipantResult Value)

pub data SessionLifecycle (Value : Type 0) : Type 0 where
  forming : SessionLifecycle Value
  running : SessionLifecycle Value
  ended : SessionEnd Value → SessionLifecycle Value

pub data ParticipantPauseReason : Type 0 where
  partner_reconnecting : (deadline_at : String) → ParticipantPauseReason

pub record ParticipantSession : Type 0 where
  pub id : String
  pub participant_id : ℤ
  pub research_id : String
  pub source : String
  pub purpose : String
  pub status : String
  pub consent_decisions : Map String Bool
  pub created_at : String
  pub updated_at : String

pub record SessionParticipant : Type 0 where
  pub participant_session_id : String
  pub participant_id : ℤ
  pub source : String
  pub role : PlayerRole
  pub connected : Bool
  pub ready : Bool
  pub audio_ready : Bool
  pub consent_decisions : Map String Bool
  pub joined_at : String
  pub updated_at : String
  pub disconnected_at : Option String
  pub reconnect_deadline_at : Option String

-- `log_open` says whether the log's writer is still there.
pub record LiveSession (G : Game) : Type 0 where
  pub id : String
  pub experiment_id : String
  pub session_id : ℤ
  pub mode : String
  pub purpose : String
  pub state : G.State
  pub log_open : Bool
  pub lifecycle : SessionLifecycle G.Value
  pub pause : Option ParticipantPauseReason
  pub participants : Map String SessionParticipant
  pub waiting_started_at : String
  pub waiting_deadline_at : String
  pub lifetime_deadline_at : String
  pub last_meaningful_activity_at : Option String
  pub idle_deadline_at : Option String
  pub voice_ends_at : Option String
  pub updated_at : String

-- `MemoryState`, with the keys of the agents' inboxes that the server keeps beside it.
pub record Memory (G : Game) : Type 0 where
  pub participants : Map String ParticipantSession
  pub sessions : Map String (LiveSession G)
  pub agent_inboxes : List String

pub record CapacityConfig : Type 0 where
  pub max_active_sessions : ℕ
  pub max_waiting_sessions : ℕ
  pub max_transcription_streams : ℕ

pub record CompletionPaths : Type 0 where
  pub completed : String
  pub partner_left : String
  pub game_did_not_start : String
  pub participation_ended_early : String
  pub technical_failure : String
  pub no_consent : String

pub data AgentsMode : Type 0 where
  human_vs_human human_vs_agent : AgentsMode

pub record ExperimentConfig : Type 0 where
  pub transcription_enabled : Bool
  pub transcription_provider : String
  pub voice_enabled : Bool
  pub agents_mode : AgentsMode
  pub capacity : CapacityConfig
  pub completion_paths : CompletionPaths

abbrev pub is_human : SessionParticipant → Bool
is_human p = not (p.source == "agent")

module _ {Value : Type 0} where
  abbrev pub is_ended : SessionLifecycle Value → Bool
  is_ended (ended _) = true
  is_ended _ = false

  abbrev pub is_forming : SessionLifecycle Value → Bool
  is_forming forming = true
  is_forming _ = false

  abbrev pub is_running : SessionLifecycle Value → Bool
  is_running running = true
  is_running _ = false

unfoldable pub speechmatics_readiness_required : ExperimentConfig → Bool
speechmatics_readiness_required config =
    config.transcription_enabled && config.transcription_provider == "speechmatics"
