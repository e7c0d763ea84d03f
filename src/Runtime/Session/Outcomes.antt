-- ===== src/Runtime/Session/Outcomes.antt =====
-- app.rs: what each participant is to be told at a session's end, as tables apart from the code: the
-- outcome for each way to end, the completion code for each outcome, and the handoff to recruitment.
use Prim.Native.String.{◌++◌ as ◌++ₛ◌}
use parlando.Common.{
  ◌≡◌, ◌≢◌, refl, Bool, true, false, Option, none, some, String, eq_String, ◌==◌, ==_iff,
  Bool-cases, inl, inr, arith,
}
use parlando.Runtime.Session.Model.{
  Game, ParticipantOutcomeKind, left_waiting_room, left_game, connection_lost, partner_left,
  partner_unavailable, idle_limit_reached, technical_failure, lifetime_limit_reached,
  SessionEndCause, no_partner, reconnect_timed_out, idle_timed_out, lifetime_timed_out, technical,
  RecruitmentHandoff, ParticipantResult, SessionLifecycle, forming, running, ended, is_running,
  is_forming, SessionParticipant, LiveSession, CompletionPaths,
}
use parlando.Runtime.Session.Ending.{
  prolific_completion_url, code_for, prolific_handoff, handoff_for, departure_outcome, expiry_cause,
  expiry_outcome,
}

-- The configured code for an outcome, in a session whose game has run or not.
pub data CodeOf (paths : CompletionPaths) (Started : Type 0)
    : ParticipantOutcomeKind → String → Type 0 where
  of_completion : CodeOf paths Started ParticipantOutcomeKind.completed paths.completed
  of_partner_left : CodeOf paths Started partner_left paths.partner_left
  of_leaving_room : CodeOf paths Started left_waiting_room paths.game_did_not_start
  of_no_partner : CodeOf paths Started partner_unavailable paths.game_did_not_start
  of_loss_before : (Started → ⊥) → CodeOf paths Started connection_lost paths.game_did_not_start
  of_loss_during : Started → CodeOf paths Started connection_lost paths.participation_ended_early
  of_leaving_game : CodeOf paths Started left_game paths.participation_ended_early
  of_idling : CodeOf paths Started idle_limit_reached paths.participation_ended_early
  of_failure : CodeOf paths Started technical_failure paths.technical_failure
  of_lifetime : CodeOf paths Started lifetime_limit_reached paths.technical_failure

-- Whom the server sends back to Prolific, and with which code.
pub data HandsOff (paths : CompletionPaths) (Started : Type 0) (outcome : ParticipantOutcomeKind)
    (source : String) : Option RecruitmentHandoff → Type 0 where
  not_from_prolific : source ≢ "prolific" → HandsOff paths Started outcome source none
  no_code :
      source ≡ "prolific"
      → CodeOf paths Started outcome ""
      → HandsOff paths Started outcome source none
  with_code :
      (code : String)
      → source ≡ "prolific"
      → CodeOf paths Started outcome code
      → code ≢ ""
      → HandsOff paths Started outcome source (
          some (record {
            provider = "prolific";
            code = code;
            url = "https://app.prolific.com/submissions/complete?cc=" ++ₛ code;
          }))

-- The end of a session by a timeout, and the outcome of a participant who is connected or not.
pub data Expires (reason : String) (connected : Bool)
    : SessionEndCause → ParticipantOutcomeKind → Type 0 where
  by_waiting : reason ≡ "waiting_timeout" → Expires reason connected no_partner partner_unavailable
  by_idling : reason ≡ "idle_timeout" → Expires reason connected idle_timed_out idle_limit_reached
  by_age :
      reason ≡ "maximum_lifetime"
      → Expires reason connected lifetime_timed_out lifetime_limit_reached
  by_partner :
      (role : String)
      → reason ≡ "reconnect_timeout"
      → connected ≡ true
      → Expires reason connected (reconnect_timed_out role) partner_left
  by_loss :
      (role : String)
      → reason ≡ "reconnect_timeout"
      → connected ≡ false
      → Expires reason connected (reconnect_timed_out role) connection_lost
  by_fault :
      reason ≢ "waiting_timeout"
      → reason ≢ "idle_timeout"
      → reason ≢ "maximum_lifetime"
      → reason ≢ "reconnect_timeout"
      → Expires reason connected technical technical_failure

-- The outcome of a participant when the actor leaves a session in a phase.
pub data Leaves {Value : Type 0} (lifecycle : SessionLifecycle Value) (actor reason id : String)
    : ParticipantOutcomeKind → Type 0 where
  as_partner : id ≢ actor → Leaves lifecycle actor reason id partner_left
  as_lost :
      id ≡ actor → reason ≡ "reconnect_timeout" → Leaves lifecycle actor reason id connection_lost
  from_room :
      id ≡ actor
      → reason ≢ "reconnect_timeout"
      → lifecycle ≡ forming
      → Leaves lifecycle actor reason id left_waiting_room
  from_game :
      id ≡ actor
      → reason ≢ "reconnect_timeout"
      → lifecycle ≢ forming
      → Leaves lifecycle actor reason id left_game

equal : (x y : String) → (x == y) ≡ true → x ≡ y
equal x y h = (==_iff x y).0 h

differs : (x y : String) → (x == y) ≡ false → x ≢ y
differs x y h e = let same = (==_iff x y).1 e in ground arith

pub forming_of : {Value : Type 0} (l : SessionLifecycle Value) → is_forming l ≡ true → l ≡ forming
forming_of forming h = refl
forming_of running h = cc
forming_of (ended end) h = cc

pub running_of : {Value : Type 0} (l : SessionLifecycle Value) → is_running l ≡ true → l ≡ running
running_of running h = refl
running_of forming h = cc
running_of (ended end) h = cc

pub not_running :
    {Value : Type 0} (l : SessionLifecycle Value) → is_running l ≡ false → l ≡ running → ⊥
not_running forming h e = cc
not_running running h e = cc
not_running (ended end) h e = cc

past_forming : {Value : Type 0} (l : SessionLifecycle Value) → is_forming l ≡ false → l ≢ forming
past_forming forming h = cc
past_forming running h = λ e. cc
past_forming (ended end) h = λ e. cc

code_for-CodeOf :
    (paths : CompletionPaths) (Started : Type 0) (outcome : ParticipantOutcomeKind) (started : Bool)
    → (started ≡ true → Started)
    → (started ≡ false → Started → ⊥)
    → CodeOf paths Started outcome (code_for paths outcome started)
code_for-CodeOf paths Started ParticipantOutcomeKind.completed started runs rests = of_completion
code_for-CodeOf paths Started left_waiting_room started runs rests = of_leaving_room
code_for-CodeOf paths Started left_game started runs rests = of_leaving_game
code_for-CodeOf paths Started connection_lost true runs rests = of_loss_during (runs refl)
code_for-CodeOf paths Started connection_lost false runs rests = of_loss_before (rests refl)
code_for-CodeOf paths Started partner_left started runs rests = of_partner_left
code_for-CodeOf paths Started partner_unavailable started runs rests = of_no_partner
code_for-CodeOf paths Started idle_limit_reached started runs rests = of_idling
code_for-CodeOf paths Started technical_failure started runs rests = of_failure
code_for-CodeOf paths Started lifetime_limit_reached started runs rests = of_lifetime

pub handoff_for-HandsOff :
    (paths : CompletionPaths) (Started : Type 0) (participant : SessionParticipant)
    (outcome : ParticipantOutcomeKind) (started : Bool)
    → (started ≡ true → Started)
    → (started ≡ false → Started → ⊥)
    → HandsOff paths Started outcome participant.source
        (handoff_for paths participant outcome started)
unfolding prolific_handoff prolific_completion_url
handoff_for-HandsOff paths Started participant outcome started runs rests =
    let told = code_for-CodeOf paths Started outcome started runs rests in
    elim (Bool-cases (participant.source == "prolific")) [
      | inr other ↦ rw other (not_from_prolific (differs _ _ other))
      | inl recruited ↦ elim (Bool-cases (code_for paths outcome started == "")) [
        | inl blank ↦
            rw (recruited, blank)
              (no_code (equal _ _ recruited)
                (rw (← equal (code_for paths outcome started) "" blank) told))
        | inr present ↦
            rw (recruited, present) (with_code _ (equal _ _ recruited) told (differs _ _ present))
      ]
    ]

module _ {G : Game} where
  pub expiry_outcome-Expires :
      (session : LiveSession G) (reason : String) (participant : SessionParticipant)
      → Expires reason participant.connected
          (expiry_cause session reason)
          (expiry_outcome (expiry_cause session reason) participant)
  expiry_outcome-Expires session reason participant =
      elim (Bool-cases (reason == "waiting_timeout")) [
        | inl w ↦ rw w (by_waiting (equal _ _ w))
        | inr w ↦ elim (Bool-cases (reason == "idle_timeout")) [
          | inl i ↦ rw (w, i) (by_idling (equal _ _ i))
          | inr i ↦ elim (Bool-cases (reason == "maximum_lifetime")) [
            | inl m ↦ rw (w, i, m) (by_age (equal _ _ m))
            | inr m ↦ elim (Bool-cases (reason == "reconnect_timeout")) [
              | inr r ↦
                  rw (w, i, m, r)
                    (by_fault (differs _ _ w) (differs _ _ i) (differs _ _ m) (differs _ _ r))
              | inl r ↦ elim (Bool-cases participant.connected) [
                | inl here ↦ rw (w, i, m, r, here) (by_partner _ (equal _ _ r) refl)
                | inr gone ↦ rw (w, i, m, r, gone) (by_loss _ (equal _ _ r) refl)
              ]
            ]
          ]
        ]
      ]

  pub departure_outcome-Leaves :
      (session : LiveSession G) (actor reason : String) (participant : SessionParticipant)
      → Leaves session.lifecycle actor reason participant.participant_session_id
          (departure_outcome session actor reason participant)
  departure_outcome-Leaves session actor reason participant =
      elim (Bool-cases (participant.participant_session_id == actor)) [
        | inr other ↦ rw other (as_partner (differs _ _ other))
        | inl own ↦ elim (Bool-cases (reason == "reconnect_timeout")) [
          | inl lost ↦ rw (own, lost) (as_lost (equal _ _ own) (equal _ _ lost))
          | inr left ↦ elim (Bool-cases (is_forming session.lifecycle)) [
            | inl f ↦
                rw (own, left, f)
                  (from_room (equal _ _ own) (differs _ _ left) (forming_of session.lifecycle f))
            | inr n ↦
                rw (own, left, n)
                  (from_game (equal _ _ own) (differs _ _ left) (past_forming session.lifecycle n))
          ]
        ]
      ]

-- The participant is told this: the outcome, why, the completion if there is one, their own view of
-- the last state, and where to go.
pub record IsResult {Value : Type 0} (paths : CompletionPaths) (Started : Type 0)
    (Outcome : ParticipantOutcomeKind → Type 0) (why : String) (told : Option Value) (seen : Value)
    (participant : SessionParticipant) (result : ParticipantResult Value) : Type 0 where
  pub outcome : Outcome result.outcome
  pub reason : result.reason ≡ why
  pub completion : result.completion ≡ told
  pub observed : result.final_observation ≡ some seen
  pub handoff : HandsOff paths Started result.outcome participant.source result.handoff
