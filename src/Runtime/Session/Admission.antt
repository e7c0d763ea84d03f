-- ===== src/Runtime/Session/Admission.antt =====
-- storage.rs and app.rs: participants, the capacity test and the pairing of two humans.
use parlando.Common.{
  ℕ, ◌+◌, Bool, true, false, ◌&&◌, not, List, [], ◌∷◌, Option, none, some, String, Map, values,
  lookup, insert, all, retain, length, map, contains, ltb, leb, if◌then◌else◌, ◌==◌, eq_String,
  find, min, ◌*◌, ◌-◌, ◌^◌,
}
use parlando.Common.Int.{ℤ}
use parlando.Runtime.Role.{PlayerRole, a, b, eq_PlayerRole}
use parlando.Runtime.Session.Model.{
  Game, ParticipantSession, SessionParticipant, LiveSession, Memory, ExperimentConfig, is_human,
  is_ended, is_forming, is_running, speechmatics_readiness_required,
}

pub data AppError : Type 0 where
  storage_reserve_reached waiting_full active_full transcription_full : AppError
  participant_not_found session_not_found purposes_differ session_has_two_players : AppError

pub data Result {ℓ} (A : Type ℓ) : Type ℓ where
  ok : A → Result A
  err : AppError → Result A

pub data SessionAdmission : Type 0 where
  waiting active : SessionAdmission

abbrev pub roles : Map String SessionParticipant → List PlayerRole
roles participants = map (λ (p : SessionParticipant). p.role) (values participants)

-- `next_role`, of the session's participants.
unfoldable pub next_role : Map String SessionParticipant → Option PlayerRole
next_role participants =
    if not (contains (roles participants) a)
    then some a
    else if not (contains (roles participants) b)
    then some b
    else none

-- `none` is a store that reports no capacity; `saturating_mul` is on a `u64`.
unfoldable pub require_session_storage_reserve : ℕ → Option ℕ → Result (Unit {0})
require_session_storage_reserve storage_reserve_megabytes none = ok tt
require_session_storage_reserve storage_reserve_megabytes (some available_bytes) =
    if leb available_bytes (min (storage_reserve_megabytes * (1024 * 1024)) (2 ^ 64 - 1))
    then err storage_reserve_reached
    else ok tt

abbrev pub wants_b : Option PlayerRole → Bool
wants_b (some b) = true
wants_b _ = false

abbrev pub seated :
    ExperimentConfig → ParticipantSession → String → PlayerRole → String → SessionParticipant
seated config participant participant_session_id role now = record {
  participant_session_id = participant_session_id;
  participant_id = participant.participant_id;
  source = participant.source;
  role = role;
  connected = false;
  ready = false;
  audio_ready = not (speechmatics_readiness_required config);
  consent_decisions = participant.consent_decisions;
  joined_at = now;
  updated_at = now;
  disconnected_at = none;
  reconnect_deadline_at = none;
}

module _ {G : Game} where
  unfoldable pub create_participant_with_id :
      Memory G
      → (participant_session_id : String) → (participant_id : ℤ)
      → (research_id source purpose now : String) → Memory G × ParticipantSession
  create_participant_with_id memory id participant_id research_id source purpose now =
      elim (lookup id memory.participants) [
        | some existing ↦ (memory, existing)
        | none ↦
            let participant : ParticipantSession = record {
              id = id;
              participant_id = participant_id;
              research_id = research_id;
              source = source;
              purpose = purpose;
              status = "created";
              consent_decisions = [];
              created_at = now;
              updated_at = now;
            } in
            (
              record memory { participants = insert id participant memory.participants },
              participant,
            )
      ]

  abbrev pub is_waiting : LiveSession G → Bool
  is_waiting session = is_forming session.lifecycle && ltb (length session.participants) 2

  abbrev pub is_active : LiveSession G → Bool
  is_active session = is_running session.lifecycle

  abbrev count : (LiveSession G → Bool) → Memory G → ℕ
  count p memory = length (retain p (values memory.sessions))

  abbrev streams : List (LiveSession G) → ℕ
  streams [] = 0
  streams (session ∷ rest) =
      let others = streams rest in
      if is_ended session.lifecycle
      then others
      else length (retain is_human (values session.participants)) + others

  abbrev pub waiting_sessions : Memory G → ℕ
  waiting_sessions memory = count is_waiting memory

  abbrev pub active_sessions : Memory G → ℕ
  active_sessions memory = count is_active memory

  abbrev pub reserved_streams : Memory G → ℕ
  reserved_streams memory = streams (values memory.sessions)

  abbrev room_for : ExperimentConfig → Memory G → SessionAdmission → Result (Unit {0})
  room_for config memory waiting =
      if leb config.capacity.max_waiting_sessions (waiting_sessions memory)
      then err waiting_full
      else ok tt
  room_for config memory active =
      if leb config.capacity.max_active_sessions (active_sessions memory)
      then err active_full
      else ok tt

  abbrev streams_for : ExperimentConfig → Memory G → ℕ → Result (Unit {0})
  streams_for config memory transcription_streams_to_add =
      if speechmatics_readiness_required config
        && ltb config.capacity.max_transcription_streams
            (reserved_streams memory + transcription_streams_to_add)
      then err transcription_full
      else ok tt

  unfoldable pub ensure_session_capacity :
      ExperimentConfig → Memory G → SessionAdmission → ℕ → Result (Unit {0})
  unfolding speechmatics_readiness_required
  ensure_session_capacity config memory admission to_add = elim (room_for config memory admission) [
    | err e ↦ err e
    | ok _ ↦ streams_for config memory to_add
  ]

  abbrev pub is_open_for : String → String → LiveSession G → Bool
  is_open_for mode purpose session =
      is_forming session.lifecycle
      && (session.mode == mode
          && (session.purpose == purpose
              && (wants_b (next_role session.participants)
                  && all is_human (values session.participants))))

  unfoldable pub open_human_session_for_pairing : Memory G → String → String → Option String
  unfolding next_role
  open_human_session_for_pairing memory mode purpose =
      elim (find (λ entry. is_open_for mode purpose entry.1) memory.sessions) [
        | none ↦ none
        | some entry ↦ some entry.0
      ]

  -- The part on the session itself: the session that follows, and the role.
  unfoldable pub seat :
      ExperimentConfig
      → LiveSession G
      → ParticipantSession
      → String
      → String
      → Result (LiveSession G × PlayerRole)
  unfolding speechmatics_readiness_required next_role
  seat config session participant id now =
      if not (session.purpose == participant.purpose)
      then err purposes_differ
      else elim (lookup id session.participants) [
        | some existing ↦ ok (session, existing.role)
        | none ↦ elim (next_role session.participants) [
          | none ↦ err session_has_two_players
          | some role ↦ ok (
            record session {
              participants = insert id (seated config participant id role now) session.participants;
            },
            role,
          )
        ]
      ]

  unfoldable pub add_human_participant_to_session_locked :
      ExperimentConfig → Memory G → String → String → String → Memory G × Result PlayerRole
  unfolding seat
  add_human_participant_to_session_locked config memory public_session_id id now =
      elim (lookup id memory.participants) [
        | none ↦ (memory, err participant_not_found)
        | some participant ↦ elim (lookup public_session_id memory.sessions) [
          | none ↦ (memory, err session_not_found)
          | some session ↦ elim (seat config session participant id now) [
            | err e ↦ (memory, err e)
            | ok (next, role) ↦ (
              record memory { sessions = insert public_session_id next memory.sessions },
              ok role,
            )
          ]
        ]
      ]
