-- ===== src/Runtime/Session/Results.antt =====
-- app.rs: the results at a session's end. Each human gets one, under the name of their role.
use parlando.Common.{
  ◌≡◌, refl, Bool, true, false, Option, none, some, String, values, lookup, All, arith,
  Option-cases, inl, inr, eq_String, subst, sym,
}
use parlando.Runtime.Role.{eq_PlayerRole}
use parlando.Runtime.Session.Model.{
  Game, ParticipantOutcomeKind, SessionEnd, SessionParticipant, LiveSession, CompletionPaths,
  ExperimentConfig, is_human, is_running, running, game_completed,
}
use parlando.Runtime.Session.Pairing.{HasDistinctRoles}
use parlando.Runtime.Session.Ending.{
  participant_results, humans, completed_session_end, departure_cause, departure_outcome,
  abandoned_session_end, expiry_cause, expiry_outcome, expired_session_end, end_with,
}
use parlando.Runtime.Session.Outcomes.{
  Expires, Leaves, expiry_outcome-Expires, departure_outcome-Leaves, running_of, not_running,
}
use parlando.Runtime.Session.Answers.{
  Answered, participant_results-HasResult, NoRepeat-roles_retain, answers,
}

module _ {G : Game} where
  -- Every participant is answered so, with their own view of the state.
  abbrev pub IsAnswered :
      CompletionPaths
      → LiveSession G
      → Type 0
      → (SessionParticipant → ParticipantOutcomeKind → Type 0)
      → String
      → Option G.Value
      → G.State
      → SessionEnd G.Value
      → Type 0
  IsAnswered paths session Started Outcome reason completion state end =
      All
        (Answered paths Started Outcome reason completion (G.observation state)
          end.participant_results)
        (values session.participants)

  ending :
      (paths : CompletionPaths) (session : LiveSession G) (Started : Type 0) (started : Bool)
      (Outcome : SessionParticipant → ParticipantOutcomeKind → Type 0)
      (outcome_of : SessionParticipant → ParticipantOutcomeKind) (reason : String) (cause : _)
      (completion told : Option G.Value) (state : G.State) (end : SessionEnd G.Value)
      → (started ≡ true → Started)
      → (started ≡ false → Started → ⊥)
      → ((p : SessionParticipant) → Outcome p (outcome_of p))
      → HasDistinctRoles session.participants
      → end_with cause told (
          participant_results paths started outcome_of reason completion
            (G.observation state)
            (humans session))
        ≡ some end
      → (end.cause ≡ cause)
        × (end.completion ≡ told)
        × IsAnswered paths session Started Outcome reason completion state end
  ending paths session Started started Outcome outcome_of reason cause completion told state end
        runs rests is d h =
      elim (Option-cases (
        participant_results paths started outcome_of reason completion (G.observation state)
          (humans session))) [
            | inl n ↦ ground (arith, n)
            | inr (results, e) ↦
                let made : SessionEnd G.Value = record {
                  cause = cause;
                  completion = told;
                  participant_results = results;
                } in
                let same : made ≡ end = ground (arith, e) in
                subst
                  (λ (x : SessionEnd G.Value).
                    (x.cause ≡ cause)
                    × (x.completion ≡ told)
                    × IsAnswered paths session Started Outcome reason completion state x)
                  same
                  (
                    refl,
                    refl,
                    answers paths Started started Outcome outcome_of reason completion
                        (G.observation state) results (values session.participants) runs rests is
                        (participant_results-HasResult _ _ _ _ _ _ (humans session) results
                          (NoRepeat-roles_retain is_human (values session.participants) d) e),
                  )
          ]

  -- The end of a game that is completed: each human is told so, with the completion, their own view
  -- of the last state and the handoff for a completion.
  pub completed_session_end-IsAnswered :
      (config : ExperimentConfig) (session : LiveSession G) (state : G.State) (completion : G.Value)
      (end : SessionEnd G.Value)
      → HasDistinctRoles session.participants
      → completed_session_end config session state completion ≡ some end
      → (end.cause ≡ game_completed)
        × (end.completion ≡ some completion)
        × IsAnswered config.completion_paths session Unit
            (λ p outcome. outcome ≡ ParticipantOutcomeKind.completed)
            "game_completed"
            (some completion)
            state
            end
  unfolding completed_session_end
  completed_session_end-IsAnswered config session state completion end d h =
      ending config.completion_paths session Unit true _ (λ p. ParticipantOutcomeKind.completed)
        "game_completed" _ (some completion) (some completion) state end (λ _. tt) (λ f _. cc)
        (λ p. refl) d h

  -- The end of a session that has run out: its cause is that of the reason, and each human gets the
  -- outcome of the reason: after a reconnect timeout, the connected that their partner left and the
  -- others that they were lost. The handoff is that of the outcome, before or during the game.
  pub expired_session_end-IsAnswered :
      (config : ExperimentConfig) (session : LiveSession G) (reason : String)
      (end : SessionEnd G.Value)
      → HasDistinctRoles session.participants
      → expired_session_end config session reason ≡ some end
      → (end.completion ≡ none)
        × IsAnswered config.completion_paths session
            (session.lifecycle ≡ running)
            (λ p outcome. Expires reason p.connected end.cause outcome)
            reason
            none
            session.state
            end
  unfolding expired_session_end
  expired_session_end-IsAnswered config session reason end d h =
      let cause = expiry_cause session reason in
      let told =
        ending config.completion_paths session (session.lifecycle ≡ running)
          (is_running session.lifecycle) (λ p outcome. Expires reason p.connected cause outcome)
          (expiry_outcome cause) reason cause none none session.state end
          (running_of session.lifecycle) (not_running session.lifecycle)
          (expiry_outcome-Expires session reason) d h in
      (
        told.1,
        subst
            (λ x.
              IsAnswered config.completion_paths session (session.lifecycle ≡ running)
                (λ p outcome. Expires reason p.connected x outcome) reason none session.state end)
            (sym told.0) told.2,
      )

  -- The end of a session that a player leaves: that player gets the outcome of leaving, in this
  -- phase and for this reason, and each other human that their partner left. The handoff is that of
  -- the outcome, before or during the game.
  pub abandoned_session_end-IsAnswered :
      (config : ExperimentConfig) (session : LiveSession G) (actor reason : String)
      (end : SessionEnd G.Value)
      → HasDistinctRoles session.participants
      → abandoned_session_end config session actor reason ≡ some end
      → (end.completion ≡ none)
        × IsAnswered config.completion_paths session
            (session.lifecycle ≡ running)
            (λ p outcome. Leaves session.lifecycle actor reason p.participant_session_id outcome)
            reason
            none
            session.state
            end
  unfolding abandoned_session_end
  abandoned_session_end-IsAnswered config session actor reason end d h =
      elim (Option-cases (lookup actor session.participants)) [
        | inl n ↦ ground (arith, n)
        | inr (p, e) ↦
            let told =
              ending config.completion_paths session (session.lifecycle ≡ running)
                (is_running session.lifecycle)
                (λ q outcome.
                  Leaves session.lifecycle actor reason q.participant_session_id outcome)
                (departure_outcome session actor reason) reason (departure_cause reason p.role) none
                none session.state end (running_of session.lifecycle)
                (not_running session.lifecycle) (departure_outcome-Leaves session actor reason) d
                (rw (abandoned_session_end, e) at h) in
            (told.1, told.2)
      ]
