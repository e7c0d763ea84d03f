-- ===== src/Runtime/Examples/Sessions.antt =====
-- Live sessions of a small game: a number that actions raise, complete from three on.
use parlando.Common.{
  ℕ, ◌+◌, ◌≡◌, refl, Bool, true, false, List, [], ◌∷◌, Option, none, some, String, lookup, insert,
  ◌⊎◌, inr, leb, if◌then◌else◌, eq_String,
}
use parlando.Common.Int.{pos}
use parlando.Runtime.Role.{PlayerRole, a, b, as_str}
use parlando.Runtime.Session.Model.{
  Game, ParticipantOutcomeKind, SessionEnd, SessionLifecycle, forming, running, ended,
  ParticipantSession, SessionParticipant, LiveSession, Memory, ExperimentConfig, human_vs_human,
  game_completed, participant_left, idle_timed_out, ParticipantResult,
  speechmatics_readiness_required,
}
use parlando.Runtime.Session.Admission.{next_role, seat}
use parlando.Runtime.Session.Pairing.{IsSeated, seat-IsSeated}
use parlando.Runtime.Session.Ending.{
  completed_session_end, abandoned_session_end, expired_session_end, participant_results,
  departure_cause, prolific_handoff, prolific_completion_url,
}
use parlando.Runtime.Session.Outcomes.{Expires, Leaves}
use parlando.Runtime.Session.Results.{
  IsAnswered, completed_session_end-IsAnswered, abandoned_session_end-IsAnswered,
  expired_session_end-IsAnswered,
}
use parlando.Runtime.Session.Progress.{Times, submit, session_ready_for_game, SubmitError, error}
use parlando.Runtime.Session.Turns.{IsMoved, submit_answer}
use parlando.Runtime.Session.History.{Operation, start, act, leave, run_all}
use parlando.Runtime.Session.History.Final.{IsFinal, run_all-IsFinal}

abbrev raise : Game
raise = record {
  State = ℕ;
  Action = ℕ;
  Completion = ℕ;
  Value = ℕ;
  apply_action = λ s n r. inr (s + n);
  completion = λ s. if leb 3 s then some s else none;
  observation = λ s r. some s;
  transition_metadata = λ s t n r. 0;
  state_json = λ s. some s;
  action_json = λ n. some n;
  completion_json = λ n. some n;
}

abbrev config : ExperimentConfig
config = record {
  transcription_enabled = false;
  transcription_provider = "";
  voice_enabled = false;
  agents_mode = human_vs_human;
  capacity = record {
    max_active_sessions = 2;
    max_waiting_sessions = 2;
    max_transcription_streams = 4;
  };
  completion_paths = record {
    completed = "DONE";
    partner_left = "PARTNER";
    game_did_not_start = "";
    participation_ended_early = "EARLY";
    technical_failure = "";
    no_consent = "";
  };
}

abbrev player_in : String → PlayerRole → SessionParticipant
player_in id role = record {
  participant_session_id = id;
  participant_id = pos 1;
  source = "prolific";
  role = role;
  connected = true;
  ready = true;
  audio_ready = true;
  consent_decisions = [];
  joined_at = "t0";
  updated_at = "t0";
  disconnected_at = none;
  reconnect_deadline_at = none;
}

abbrev with_phase : SessionLifecycle ℕ → LiveSession raise
with_phase lifecycle = record {
  id = "s";
  experiment_id = "e";
  session_id = pos 1;
  mode = "hvh";
  purpose = "research";
  state = 2;
  log_open = true;
  lifecycle = lifecycle;
  pause = none;
  participants = ("p1", player_in "p1" a) ∷ ("p2", player_in "p2" b) ∷ [];
  waiting_started_at = "t0";
  waiting_deadline_at = "t9";
  lifetime_deadline_at = "t9";
  last_meaningful_activity_at = none;
  idle_deadline_at = none;
  voice_ends_at = none;
  updated_at = "t0";
}

abbrev playing : LiveSession raise
playing = with_phase running

abbrev alone : LiveSession raise
alone = record playing { lifecycle = forming; participants = ("p1", player_in "p1" a) ∷ [] }

abbrev memory_of : LiveSession raise → Memory raise
memory_of session = record { participants = []; sessions = ("s", session) ∷ []; agent_inboxes = [] }

abbrev times : Times
times = record { now = "t1"; idle_deadline = "t2"; voice_end = "t3" }

abbrev newcomer : ParticipantSession
newcomer = record {
  id = "p2";
  participant_id = pos 2;
  research_id = "r";
  source = "direct";
  purpose = "research";
  status = "created";
  consent_decisions = [];
  created_at = "t0";
  updated_at = "t0";
}

abbrev seated_with : LiveSession raise
seated_with = record alone {
  participants =
      ("p1", player_in "p1" a)
      ∷ (
        "p2",
        record (player_in "p2" b) {
          participant_id = pos 2;
          source = "direct";
          connected = false;
          ready = false;
          joined_at = "t1";
          updated_at = "t1";
        },
      )
      ∷ [];
}

seat-IsSeated_example : IsSeated alone seated_with newcomer "p2" b
unfolding seat lookup insert next_role speechmatics_readiness_required
seat-IsSeated_example =
    seat-IsSeated config alone seated_with newcomer "p2" "t1" b (refl, tt) (refl, tt) refl

abbrev always : {A B : Type 0} → A → B → Bool
always x y = true

submit_answer_example :
    ((e : SubmitError) × (submit config always false playing playing a 1 times
        ≡ (playing, error e)))
    ⊎ ((playing.lifecycle ≡ running)
        × (playing.pause ≡ none)
        × (session_ready_for_game config playing.participants ≡ true)
        × ((after : ℕ) × (raise.apply_action 2 1 a ≡ inr after)
            × IsMoved playing after times
                (submit config always false playing playing a 1 times).0
                (submit config always false playing playing a 1 times).1))
submit_answer_example = submit_answer config always false playing playing a 1 times

abbrev result : ParticipantOutcomeKind → String → String → Option ℕ → ℕ → ParticipantResult ℕ
result outcome reason code completion seen = record {
  outcome = outcome;
  reason = reason;
  completion = completion;
  final_observation = some seen;
  handoff =
      some (record { provider = "prolific"; code = code; url = prolific_completion_url code });
}

abbrev won : SessionEnd ℕ
won = record {
  cause = game_completed;
  completion = some 3;
  participant_results =
      ("B", result ParticipantOutcomeKind.completed "game_completed" "DONE" (some 3) 3)
      ∷ ("A", result ParticipantOutcomeKind.completed "game_completed" "DONE" (some 3) 3)
      ∷ [];
}

abbrev left : SessionEnd ℕ
left = record {
  cause = participant_left "A";
  completion = none;
  participant_results =
      ("B", result ParticipantOutcomeKind.partner_left "closed" "PARTNER" none 2)
      ∷ ("A", result ParticipantOutcomeKind.left_game "closed" "EARLY" none 2)
      ∷ [];
}

abbrev idle : SessionEnd ℕ
idle = record {
  cause = idle_timed_out;
  completion = none;
  participant_results =
      ("B", result ParticipantOutcomeKind.idle_limit_reached "idle_timeout" "EARLY" none 2)
      ∷ ("A", result ParticipantOutcomeKind.idle_limit_reached "idle_timeout" "EARLY" none 2)
      ∷ [];
}

completed_session_end-IsAnswered_example :
    (won.cause ≡ game_completed)
    × (won.completion ≡ some 3)
    × IsAnswered config.completion_paths playing Unit
        (λ p outcome. outcome ≡ ParticipantOutcomeKind.completed)
        "game_completed"
        (some 3)
        3
        won
unfolding completed_session_end participant_results prolific_handoff as_str insert
completed_session_end-IsAnswered_example =
    completed_session_end-IsAnswered config playing 3 3 won (refl, (refl, tt)) refl

abandoned_session_end-IsAnswered_example :
    (left.completion ≡ none)
    × IsAnswered config.completion_paths playing
        (playing.lifecycle ≡ running)
        (λ p outcome. Leaves playing.lifecycle "p1" "closed" p.participant_session_id outcome)
        "closed"
        none
        2
        left
unfolding abandoned_session_end participant_results prolific_handoff as_str insert lookup
    departure_cause
abandoned_session_end-IsAnswered_example =
    abandoned_session_end-IsAnswered config playing "p1" "closed" left (refl, (refl, tt)) refl

expired_session_end-IsAnswered_example :
    (idle.completion ≡ none)
    × IsAnswered config.completion_paths playing
        (playing.lifecycle ≡ running)
        (λ p outcome. Expires "idle_timeout" p.connected idle_timed_out outcome)
        "idle_timeout"
        none
        2
        idle
unfolding expired_session_end participant_results prolific_handoff as_str insert
expired_session_end-IsAnswered_example =
    expired_session_end-IsAnswered config playing "idle_timeout" idle (refl, (refl, tt)) refl

abbrev afterwards : List (Operation raise)
afterwards =
    act false always false "s" a 1 times
    ∷ start false (some true) "s" times
    ∷ leave false (some true) "s" "p1" "closed" "t4"
    ∷ []

run_all-IsFinal_example :
    IsFinal (run_all config afterwards (memory_of (with_phase (ended won)))) "s" won
unfolding lookup
run_all-IsFinal_example =
    run_all-IsFinal config afterwards (memory_of (with_phase (ended won))) "s" won refl
