-- ===== src/Runtime/Session/Ending.antt =====
-- app.rs: the ways in which a session ends, and the result of each human in it. Whether the store
-- commits is an argument: `none` where building the event or the store fails. The three loops over
-- the participants are one definition here, with the outcome of each as its argument.
use Prim.Native.String.{◌++◌ as ◌++ₛ◌}
use parlando.Common.{
  Bool, true, false, not, List, [], ◌∷◌, Option, none, some, String, Map, values, lookup, insert,
  retain, find, without, if◌then◌else◌, ◌==◌, eq_String,
}
use parlando.Runtime.Role.{PlayerRole, as_str}
use parlando.Runtime.Session.Model.{
  Game, ParticipantOutcomeKind, left_waiting_room, left_game, connection_lost, partner_left,
  partner_unavailable, idle_limit_reached, technical_failure, lifetime_limit_reached,
  SessionEndCause, game_completed, participant_left, no_partner, reconnect_timed_out,
  idle_timed_out, lifetime_timed_out, technical, RecruitmentHandoff, ParticipantResult, SessionEnd,
  ended, SessionParticipant, LiveSession, Memory, CompletionPaths, ExperimentConfig, human_vs_human,
  human_vs_agent, is_human, is_ended, is_forming, is_running,
}

unfoldable pub prolific_completion_url : String → String
prolific_completion_url code = "https://app.prolific.com/submissions/complete?cc=" ++ₛ code

abbrev pub code_for : CompletionPaths → ParticipantOutcomeKind → Bool → String
code_for paths ParticipantOutcomeKind.completed game_started = paths.completed
code_for paths partner_left game_started = paths.partner_left
code_for paths left_waiting_room game_started = paths.game_did_not_start
code_for paths partner_unavailable game_started = paths.game_did_not_start
code_for paths connection_lost false = paths.game_did_not_start
code_for paths connection_lost true = paths.participation_ended_early
code_for paths left_game game_started = paths.participation_ended_early
code_for paths idle_limit_reached game_started = paths.participation_ended_early
code_for paths technical_failure game_started = paths.technical_failure
code_for paths lifetime_limit_reached game_started = paths.technical_failure

unfoldable pub prolific_handoff :
    CompletionPaths → ParticipantOutcomeKind → Bool → Option RecruitmentHandoff
unfolding prolific_completion_url
prolific_handoff paths outcome game_started =
    let code = code_for paths outcome game_started in
    if code == ""
    then none
    else some (record { provider = "prolific"; code = code; url = prolific_completion_url code })

abbrev pub handoff_for :
    CompletionPaths → SessionParticipant → ParticipantOutcomeKind → Bool → Option RecruitmentHandoff
handoff_for paths participant outcome game_started =
    if participant.source == "prolific" then prolific_handoff paths outcome game_started else none

unfoldable pub agent_key : String → String → String
agent_key public_session_id participant_session_id =
    public_session_id ++ₛ (":" ++ₛ participant_session_id)

-- What `abandon_session` and the others give: an error, that the session was not theirs to end, or
-- that it is ended.
pub data Ending : Type 0 where
  failed refused done : Ending

unfoldable pub departure_cause : String → PlayerRole → SessionEndCause
unfolding as_str
departure_cause reason role =
    if reason == "reconnect_timeout"
    then reconnect_timed_out (as_str role)
    else participant_left (as_str role)

-- The causes that an expiry never has give no outcome in the source; `expiry_cause` gives none.
abbrev pub expiry_outcome : SessionEndCause → SessionParticipant → ParticipantOutcomeKind
expiry_outcome no_partner participant = partner_unavailable
expiry_outcome (reconnect_timed_out _) participant =
    if participant.connected then partner_left else connection_lost
expiry_outcome idle_timed_out participant = idle_limit_reached
expiry_outcome lifetime_timed_out participant = lifetime_limit_reached
expiry_outcome _ participant = technical_failure

module _ {Value : Type 0} where
  abbrev pub result_for :
      CompletionPaths
      → Bool
      → (SessionParticipant → ParticipantOutcomeKind)
      → String
      → Option Value
      → Value
      → SessionParticipant
      → ParticipantResult Value
  result_for paths game_started outcome_of reason completion observed participant = record {
    outcome = outcome_of participant;
    reason = reason;
    completion = completion;
    final_observation = some observed;
    handoff = handoff_for paths participant (outcome_of participant) game_started;
  }

  -- `collect` into a map, by the role's name. `none` where an observation cannot be encoded.
  unfoldable pub participant_results :
      CompletionPaths
      → Bool
      → (SessionParticipant → ParticipantOutcomeKind)
      → String
      → Option Value
      → (PlayerRole → Option Value)
      → List SessionParticipant
      → Option (Map String (ParticipantResult Value))
  unfolding as_str
  participant_results paths started outcome_of reason completion observe [] = some []
  participant_results paths started outcome_of reason completion observe (p ∷ ps) =
      elim (observe p.role) [
        | none ↦ none
        | some observed ↦
            elim (participant_results paths started outcome_of reason completion observe ps) [
              | none ↦ none
              | some results ↦ some (
                  insert (as_str p.role)
                    (result_for paths started outcome_of reason completion observed p) results)
            ]
      ]

  abbrev pub end_with :
      SessionEndCause
      → Option Value
      → Option (Map String (ParticipantResult Value))
      → Option (SessionEnd Value)
  end_with cause completion none = none
  end_with cause completion (some results) =
      some (record { cause = cause; completion = completion; participant_results = results })

module _ {G : Game} where
  abbrev pub humans : LiveSession G → List SessionParticipant
  humans session = retain is_human (values session.participants)

  unfoldable pub completed_session_end :
      ExperimentConfig → LiveSession G → G.State → G.Value → Option (SessionEnd G.Value)
  unfolding participant_results prolific_handoff
  completed_session_end config session final_state completion =
      end_with game_completed (some completion) (
        participant_results config.completion_paths true (λ p. ParticipantOutcomeKind.completed)
          "game_completed" (some completion) (G.observation final_state) (humans session))

  abbrev pub actor_outcome : LiveSession G → String → ParticipantOutcomeKind
  actor_outcome session reason =
      if reason == "reconnect_timeout"
      then connection_lost
      else if is_forming session.lifecycle
      then left_waiting_room
      else left_game

  abbrev pub departure_outcome :
      LiveSession G → String → String → SessionParticipant → ParticipantOutcomeKind
  departure_outcome session actor reason participant =
      if participant.participant_session_id == actor
      then actor_outcome session reason
      else partner_left

  -- The end that `abandon_session` builds: `none` for an actor who is not in the session.
  unfoldable pub abandoned_session_end :
      ExperimentConfig → LiveSession G → String → String → Option (SessionEnd G.Value)
  unfolding participant_results prolific_handoff
  abandoned_session_end config session actor reason = elim (lookup actor session.participants) [
    | none ↦ none
    | some participant ↦ end_with (departure_cause reason participant.role) none (
        participant_results config.completion_paths (is_running session.lifecycle)
          (departure_outcome session actor reason) reason none (G.observation session.state)
          (humans session))
  ]

  unfoldable pub first_disconnected : LiveSession G → String
  unfolding as_str
  first_disconnected session =
      elim (find (λ (p : SessionParticipant). not p.connected) (values session.participants)) [
        | none ↦ "unknown"
        | some participant ↦ as_str participant.role
      ]

  abbrev pub expiry_cause : LiveSession G → String → SessionEndCause
  expiry_cause session reason =
      if reason == "waiting_timeout"
      then no_partner
      else if reason == "idle_timeout"
      then idle_timed_out
      else if reason == "maximum_lifetime"
      then lifetime_timed_out
      else if reason == "reconnect_timeout"
      then reconnect_timed_out (first_disconnected session)
      else technical

  unfoldable pub expired_session_end :
      ExperimentConfig → LiveSession G → String → Option (SessionEnd G.Value)
  unfolding participant_results prolific_handoff
  expired_session_end config session reason =
      let cause = expiry_cause session reason in
      end_with cause none (
        participant_results config.completion_paths (is_running session.lifecycle)
          (expiry_outcome cause) reason none (G.observation session.state) (humans session))

  abbrev pub put_session : Memory G → String → LiveSession G → Memory G
  put_session memory id session = record memory { sessions = insert id session memory.sessions }

  -- A write to the session, if it is still there.
  abbrev pub on_session : Memory G → String → (LiveSession G → LiveSession G) → Memory G
  on_session memory id change = elim (lookup id memory.sessions) [
    | none ↦ memory
    | some session ↦ put_session memory id (change session)
  ]

  abbrev pub close : SessionEnd G.Value → String → LiveSession G → LiveSession G
  close end now session = record session { lifecycle = ended end; pause = none; updated_at = now }

  -- The store's answer to an ending, and the memory that follows.
  abbrev pub settle :
      Option Bool → Option (SessionEnd G.Value) → Memory G → String → String → Memory G × Ending
  settle committed none memory id now = (memory, failed)
  settle none (some end) memory id now = (memory, failed)
  settle (some false) (some end) memory id now = (memory, refused)
  settle (some true) (some end) memory id now = (on_session memory id (close end now), done)

  -- The code holds no lock from its read to its write: `seen` is the memory that it reads, `memory`
  -- what others have made of it when the store has answered.
  unfoldable pub expire_live_session :
      ExperimentConfig
      → Option Bool
      → Memory G
      → Memory G
      → String
      → String
      → String
      → Memory G × Ending
  unfolding expired_session_end
  expire_live_session config committed seen memory public_session_id reason now =
      elim (lookup public_session_id seen.sessions) [
        | none ↦ (memory, failed)
        | some session ↦
            if is_ended session.lifecycle
            then (memory, refused)
            else settle committed (expired_session_end config session reason) memory
                public_session_id now
      ]

  -- `shutdown_session_log`.
  unfoldable pub shut_log : LiveSession G → LiveSession G
  shut_log session = record session { log_open = false }

  abbrev pub shut_inbox : String → Option (LiveSession G) → List String → List String
  shut_inbox public_session_id none inboxes = inboxes
  shut_inbox public_session_id (some session) inboxes =
      elim (find (λ p. not (is_human p)) (values session.participants)) [
        | none ↦ inboxes
        | some agent ↦ without (agent_key public_session_id agent.participant_session_id) inboxes
      ]

  unfoldable pub after_departure : ExperimentConfig → String → Memory G × Ending → Memory G × Ending
  unfolding shut_log
  after_departure config id (memory, done) = elim config.agents_mode [
    | human_vs_agent ↦ (
      record memory {
        agent_inboxes = shut_inbox id (lookup id memory.sessions) memory.agent_inboxes;
      },
      done,
    )
    | human_vs_human ↦ (on_session memory id shut_log, done)
  ]
  after_departure config id (memory, failed) = (memory, failed)
  after_departure config id (memory, refused) = (memory, refused)

  -- The session's transition lock is held, but not by an expiry: so here too, what is read and what
  -- is written to are two memories.
  unfoldable pub abandon_session :
      ExperimentConfig
      → Option Bool
      → Memory G
      → Memory G
      → String
      → String
      → String
      → String
      → Memory G × Ending
  unfolding abandoned_session_end after_departure
  abandon_session config committed seen memory public_session_id actor reason now =
      elim (lookup public_session_id seen.sessions) [
        | none ↦ (memory, failed)
        | some session ↦
            if is_ended session.lifecycle
            then (memory, refused)
            else after_departure config public_session_id (
                settle committed (abandoned_session_end config session actor reason) memory
                  public_session_id now)
      ]
