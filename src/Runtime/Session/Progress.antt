-- ===== src/Runtime/Session/Progress.antt =====
-- app.rs: readiness, the start of the game, and the actions that move it. The store's answers and
-- the clock's strings are arguments; telemetry and the messages to clients and agents are left out.
use parlando.Common.{
  Bool, true, false, ◌&&◌, ◌||◌, not, List, [], ◌∷◌, Option, none, some, String, Map, values,
  lookup, retain, map, contains, is_some, if◌then◌else◌, ◌==◌, eq_String, inl, inr,
}
use parlando.Runtime.Role.{PlayerRole, a, b, ActionRejection, eq_PlayerRole}
use parlando.Runtime.Session.Model.{
  Game, SessionEnd, running, ended, SessionParticipant, LiveSession, Memory, ExperimentConfig,
  AgentsMode, human_vs_human, human_vs_agent, is_ended, is_forming, is_running,
  speechmatics_readiness_required,
}
use parlando.Runtime.Session.Ending.{completed_session_end, put_session, on_session, shut_log}

unfoldable pub participant_ready_for_game : ExperimentConfig → SessionParticipant → Bool
unfolding speechmatics_readiness_required
participant_ready_for_game config p =
    p.connected
    && ((not (p.source == "agent") || p.ready)
        && (p.source == "agent"
            || (p.source == "worker"
                || (not (speechmatics_readiness_required config) || p.audio_ready))))

unfoldable pub ready_roles : ExperimentConfig → Map String SessionParticipant → List PlayerRole
unfolding participant_ready_for_game
ready_roles config participants =
    map (λ (p : SessionParticipant). p.role)
      (retain (participant_ready_for_game config) (values participants))

-- The set of the ready roles is {A, B}.
unfoldable pub session_ready_for_game : ExperimentConfig → Map String SessionParticipant → Bool
unfolding participant_ready_for_game
session_ready_for_game config participants =
    contains (ready_roles config participants) a && contains (ready_roles config participants) b

-- The strings that the clock and the time limits give at one moment.
pub record Times : Type 0 where
  pub now : String
  pub idle_deadline : String
  pub voice_end : String

pub data TransitionOutcome : Type 0 where
  continued completed : TransitionOutcome

pub data SubmitError : Type 0 where
  submission_rejection : (code : String) → SubmitError
  game_rejection : ActionRejection → SubmitError
  failed : SubmitError

pub data Submitted : Type 0 where
  moved : TransitionOutcome → Submitted
  error : SubmitError → Submitted

abbrev pub is_hvh : AgentsMode → Bool
is_hvh human_vs_human = true
is_hvh human_vs_agent = false

-- The event of an accepted action, and the one of a completion after it.
pub data DurableEvent (Value : Type 0) : Type 0 where
  game_action_accepted : (action metadata state : Value) → DurableEvent Value
  session_completed : (completion : Value) → DurableEvent Value

-- What is committed, the session that follows the commit, and the answer.
abbrev pub Step : Game → Type 0
Step G =
    List (DurableEvent G.Value) × Option (SessionEnd G.Value) × LiveSession G × TransitionOutcome

-- The session is gone when the action is to be written.
abbrev pub unwritten : Submitted → Submitted
unwritten (moved outcome) = error failed
unwritten (error e) = error e

module _ {G : Game} where
  abbrev pub begin : LiveSession G → Times → LiveSession G
  begin session times = record session {
    lifecycle = running;
    pause = none;
    updated_at = times.now;
    last_meaningful_activity_at = some times.now;
    idle_deadline_at = some times.idle_deadline;
  }

  unfoldable pub may_start : ExperimentConfig → LiveSession G → Bool
  unfolding session_ready_for_game
  may_start config session =
      is_forming session.lifecycle && session_ready_for_game config session.participants

  abbrev pub begun : Option Bool → Memory G → String → Times → Memory G
  begun (some true) memory id times = on_session memory id (λ session. begin session times)
  begun (some false) memory id times = memory
  begun none memory id times = memory

  -- `started` is the store's answer, `none` its error; `seen` is the memory that the guards read.
  unfoldable pub maybe_start_game :
      ExperimentConfig → Option Bool → Memory G → Memory G → String → Times → Memory G
  unfolding session_ready_for_game
  maybe_start_game config started seen memory id times = elim (lookup id seen.sessions) [
    | none ↦ memory
    | some session ↦ if may_start config session then begun started memory id times else memory
  ]

  abbrev touch_session_activity : LiveSession G → Times → LiveSession G
  touch_session_activity session times = record session {
    updated_at = times.now;
    last_meaningful_activity_at = some times.now;
    idle_deadline_at = some times.idle_deadline;
  }

  unfoldable pub log_after : AgentsMode → LiveSession G → LiveSession G
  unfolding shut_log
  log_after human_vs_human session = shut_log session
  log_after human_vs_agent session = session

  unfoldable pub finish :
      ExperimentConfig → Bool → LiveSession G → G.State → SessionEnd G.Value → Times → LiveSession G
  unfolding shut_log
  finish config has_human_pair session after end times =
      log_after config.agents_mode (record session {
        state = after;
        updated_at = times.now;
        voice_ends_at =
            if config.voice_enabled && (is_hvh config.agents_mode && has_human_pair)
            then some times.voice_end
            else none;
        lifecycle = ended end;
      })

  abbrev pub advance : LiveSession G → G.State → Times → LiveSession G
  advance session after times = touch_session_activity (record session { state = after }) times

  -- The refusals that come before the game is asked.
  unfoldable pub gate : ExperimentConfig → LiveSession G → Option String
  unfolding session_ready_for_game speechmatics_readiness_required
  gate config session =
      if is_ended session.lifecycle
      then some "session_complete"
      else if not (is_running session.lifecycle) || is_some session.pause
      then some "participant_not_active"
      else if session_ready_for_game config session.participants
      then none
      else if speechmatics_readiness_required config
      then some "transcription_not_ready"
      else some "players_not_ready"

  -- `none` where a value cannot be encoded. The action is tried on `session` and written to
  -- `current`, which an expiry may have changed meanwhile.
  unfoldable pub plan :
      ExperimentConfig
      → Bool
      → LiveSession G
      → LiveSession G
      → PlayerRole
      → G.Action
      → G.State
      → Times
      → Option (Step G)
  unfolding completed_session_end shut_log
  plan config has_human_pair session current role action after times = elim (G.state_json after) [
    | none ↦ none
    | some state_json ↦ elim (G.action_json action) [
      | none ↦ none
      | some action_json ↦
          let accepted =
            game_action_accepted action_json (G.transition_metadata session.state after action role)
              state_json in
          elim (G.completion after) [
            | none ↦ some (accepted ∷ [], none, advance current after times, continued)
            | some completion ↦ elim (G.completion_json completion) [
              | none ↦ none
              | some completion_json ↦
                  elim (completed_session_end config session after completion_json) [
                    | none ↦ none
                    | some end ↦ some (
                      accepted ∷ session_completed completion_json ∷ [],
                      some end,
                      finish config has_human_pair current after end times,
                      completed,
                    )
                  ]
            ]
          ]
    ]
  ]

  -- One action, on the session as it is read and as it is written to. `commit` is whether the store
  -- gives no error; whether it still found the session open is not asked.
  unfoldable pub submit :
      ExperimentConfig
      → (List (DurableEvent G.Value) → Option (SessionEnd G.Value) → Bool)
      → Bool
      → LiveSession G
      → LiveSession G
      → PlayerRole
      → G.Action
      → Times
      → LiveSession G × Submitted
  unfolding completed_session_end shut_log session_ready_for_game speechmatics_readiness_required
  submit config commit has_human_pair session current role action times =
      elim (gate config session) [
        | some code ↦ (current, error (submission_rejection code))
        | none ↦ elim (G.apply_action session.state action role) [
          | inl rejection ↦ (current, error (game_rejection rejection))
          | inr after ↦ elim (plan config has_human_pair session current role action after times) [
            | none ↦ (current, error failed)
            | some (events, end, next, outcome) ↦
                if commit events end then (next, moved outcome) else (current, error failed)
          ]
        ]
      ]

  unfoldable pub submit_action :
      ExperimentConfig
      → (List (DurableEvent G.Value) → Option (SessionEnd G.Value) → Bool)
      → Bool
      → Memory G
      → Memory G
      → String
      → PlayerRole
      → G.Action
      → Times
      → Memory G × Submitted
  unfolding submit
  submit_action config commit has_human_pair seen memory id role action times =
      elim (lookup id seen.sessions) [
        | none ↦ (memory, error failed)
        | some session ↦ elim (lookup id memory.sessions) [
          | none ↦ (
            memory,
            unwritten (submit config commit has_human_pair session session role action times).1,
          )
          | some current ↦
              let (next, answer) =
                submit config commit has_human_pair session current role action times in
              (put_session memory id next, answer)
        ]
      ]
