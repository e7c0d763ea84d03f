-- ===== src/Runtime/Session/Turns.antt =====
-- app.rs: an action counts only while its session runs, unpaused, with both players ready; it then
-- moves the game, and ends the session when the game is over.
use parlando.Common.{
  ◌≡◌, ◌≢◌, refl, Bool, true, false, List, Option, none, some, String, Map, arith, Bool-cases,
  is_some, Option-cases, inl, inr, ◌⊎◌, eq_String, ap, subst, sym,
}
use parlando.Runtime.Role.{PlayerRole}
use parlando.Runtime.Session.Model.{
  Game, SessionEnd, SessionEndCause, ParticipantResult, running, ended, LiveSession,
  ExperimentConfig, AgentsMode, human_vs_human, human_vs_agent, game_completed,
}
use parlando.Runtime.Session.Ending.{end_with, completed_session_end, shut_log}
use parlando.Runtime.Session.Progress.{
  Times, Submitted, moved, error, SubmitError, continued, completed, submission_rejection,
  game_rejection, failed as not_done, DurableEvent, Step, log_after, submit, session_ready_for_game,
  gate, plan, finish,
}
use parlando.Runtime.Session.Outcomes.{running_of}

no_pause : {A : Type 0} (o : Option A) → is_some o ≡ false → o ≡ none
no_pause none h = refl
no_pause (some x) h = cc

Sum-cases : {A B : Type 0} (s : A ⊎ B) → ((x : A) × (s ≡ inl x)) ⊎ ((y : B) × (s ≡ inr y))
Sum-cases (inl x) = inl (x, refl)
Sum-cases (inr y) = inr (y, refl)

end_with-cause :
    {Value : Type 0} (cause : SessionEndCause) (told : Option Value)
    (results : Option (Map String (ParticipantResult Value))) (end : SessionEnd Value)
    → end_with cause told results ≡ some end
    → end.cause ≡ cause
end_with-cause cause told none end h = cc
end_with-cause cause told (some results) end h =
    let made : SessionEnd _ = record {
      cause = cause;
      completion = told;
      participant_results = results;
    } in
    let same : made ≡ end = cc in ap (λ (x : SessionEnd _). x.cause) (sym same)

pub Mode-cases : (m : AgentsMode) → (m ≡ human_vs_human) ⊎ (m ≡ human_vs_agent)
Mode-cases human_vs_human = inl refl
Mode-cases human_vs_agent = inr refl

module _ {G : Game} where
  -- What an action that is accepted does: the game's next state, and either on with the game or the
  -- end of it.
  abbrev pub IsMoved : LiveSession G → G.State → Times → LiveSession G → Submitted → Type 0
  IsMoved current after times next answer =
      ((answer ≡ moved continued)
        × (G.completion after ≡ none)
        × (next ≡ record current {
          state = after;
          updated_at = times.now;
          last_meaningful_activity_at = some times.now;
          idle_deadline_at = some times.idle_deadline;
        }))
      ⊎ ((answer ≡ moved completed)
          × (G.completion after ≢ none)
          × ((end : SessionEnd G.Value) × (next.lifecycle ≡ ended end)
              × (next.state ≡ after)
              × (end.cause ≡ game_completed)))

  abbrev PlanMoved : LiveSession G → G.State → Times → Option (Step G) → Type 0
  PlanMoved current after times none = Unit
  PlanMoved current after times (some (events, end, next, outcome)) =
      IsMoved current after times next (moved outcome)

  finish-lifecycle :
      (config : ExperimentConfig) (pair : Bool) (session : LiveSession G) (after : G.State)
      (end : SessionEnd G.Value) (times : Times)
      → ((finish config pair session after end times).lifecycle ≡ ended end)
        × ((finish config pair session after end times).state ≡ after)
  unfolding finish log_after shut_log
  finish-lifecycle config pair session after end times = elim (Mode-cases config.agents_mode) [
    | inl human ↦ rw human (refl, refl)
    | inr agent ↦ rw agent (refl, refl)
  ]

  completed-cause :
      (config : ExperimentConfig) (session : LiveSession G) (after : G.State) (told : G.Value)
      (end : SessionEnd G.Value)
      → completed_session_end config session after told ≡ some end
      → end.cause ≡ game_completed
  unfolding completed_session_end
  completed-cause config session after told end h =
      end_with-cause game_completed (some told) _ end h

  plan-PlanMoved :
      (config : ExperimentConfig) (pair : Bool) (session current : LiveSession G)
      (role : PlayerRole) (action : G.Action) (after : G.State) (times : Times)
      → PlanMoved current after times (plan config pair session current role action after times)
  unfolding plan
  plan-PlanMoved config pair session current role action after times =
      elim (Option-cases (G.state_json after)) [
        | inl n ↦ rw (plan, n) tt
        | inr (s, e) ↦ elim (Option-cases (G.action_json action)) [
          | inl n ↦ rw (plan, e, n) tt
          | inr (a, f) ↦ elim (Option-cases (G.completion after)) [
            | inl on ↦ rw (plan, e, f, on) (inl (refl, on, refl))
            | inr (c, over) ↦ elim (Option-cases (G.completion_json c)) [
              | inl n ↦ rw (plan, e, f, over, n) tt
              | inr (told, g) ↦
                  elim (Option-cases (completed_session_end config session after told)) [
                    | inl n ↦ rw (plan, e, f, over, g, n) tt
                    | inr (end, made) ↦
                        rw (plan, e, f, over, g, made)
                          (inr (
                            refl,
                            λ n. ground (arith, over, n),
                            (
                              end,
                              (finish-lifecycle config pair current after end times).0,
                              (finish-lifecycle config pair current after end times).1,
                              completed-cause config session after told end made,
                            ),
                          ))
                  ]
            ]
          ]
        ]
      ]

  gate-open :
      (config : ExperimentConfig) (session : LiveSession G)
      → gate config session ≡ none
      → (session.lifecycle ≡ running)
        × (session.pause ≡ none)
        × (session_ready_for_game config session.participants ≡ true)
  unfolding gate
  gate-open config session h = (
    running_of session.lifecycle (ground arith),
    no_pause session.pause (ground arith),
    ground arith,
  )

  -- An action is either refused, and nothing is written; or it came to a running, unpaused session
  -- with both players ready, the game took it, and the game's next state is written: then the
  -- session is touched and otherwise as it was when the game is not complete, and else it has
  -- ended, completed.
  pub submit_answer :
      (config : ExperimentConfig)
      (commit : List (DurableEvent G.Value) → Option (SessionEnd G.Value) → Bool) (pair : Bool)
      (session current : LiveSession G) (role : PlayerRole) (action : G.Action) (times : Times)
      → ((e : SubmitError) × (submit config commit pair session current role action times
            ≡ (current, error e)))
        ⊎ ((session.lifecycle ≡ running)
            × (session.pause ≡ none)
            × (session_ready_for_game config session.participants ≡ true)
            × ((after : G.State) × (G.apply_action session.state action role ≡ inr after)
                × IsMoved current after times
                    (submit config commit pair session current role action times).0
                    (submit config commit pair session current role action times).1))
  unfolding submit
  submit_answer config commit pair session current role action times =
      elim (Option-cases (gate config session)) [
        | inr (code, shut) ↦ inl (submission_rejection code, rw (submit, shut) refl)
        | inl way ↦
            let (runs, free, ready) = gate-open config session way in
            elim (Sum-cases (G.apply_action session.state action role)) [
              | inl (r, refusal) ↦ inl (game_rejection r, rw (submit, way, refusal) refl)
              | inr (after, taken) ↦
                  elim (Option-cases (plan config pair session current role action after times)) [
                    | inl n ↦ inl (not_done, rw (submit, way, taken, n) refl)
                    | inr ((events, end, next, outcome), made) ↦
                        elim (Bool-cases (commit events end)) [
                          | inr lost ↦ inl (not_done, rw (submit, way, taken, made, lost) refl)
                          | inl kept ↦ inr (
                            runs,
                            free,
                            ready,
                            (
                              after,
                              taken,
                              rw (submit, way, taken, made, kept)
                                  (subst (PlanMoved current after times) made (
                                    plan-PlanMoved config pair session current role action after
                                      times)),
                            ),
                          )
                        ]
                  ]
            ]
      ]
