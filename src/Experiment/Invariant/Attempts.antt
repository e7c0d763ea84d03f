-- ===== src/Experiment/Invariant/Attempts.antt =====
-- agent_experiment.rs: the execution of a response keeps an invariant.
use parlando.Common.{ℕ, ◌≡◌, refl, Option, none, some, String, inl, inr, ◌⊎◌}
use parlando.Runtime.Role.{PlayerRole, ActionRejection}
use parlando.Experiment.Schedule.{AgentResponse, action, message, action_and_message}
use parlando.Experiment.Model.{Game, DecisionInput, SessionPlan, Agents, Run}
use parlando.Experiment.Calls.{observe_transition_agents, deliver_message}
use parlando.Experiment.Recording.{record_trajectory}
use parlando.Experiment.Decision.{
  Attempt, count_accepted, count_rejected, send_after, apply_action, execute,
}
use parlando.Experiment.Invariant.{
  Ensures, IsInvariant, Somewhere, Keeps, bind-Keeps, observe_transition_agents-Keeps,
  deliver_message-Keeps,
}
use parlando.Experiment.Invariant.Recording.{record_trajectory-Keeps}
use parlando.Experiment.Recording.{accepted, rejected}
use parlando.Experiment.Decision.{attempt_accepted, attempt_rejected, attempt_with}

module _ {G : Game} (plan : SessionPlan G) (P : G.State → ℕ → ℕ → Run G → Type 0)
    (I : IsInvariant plan P) (agents : Agents G) where
  -- The attempt's state is the game's, and so is its completion.
  abbrev pub Settled : Attempt G → Run G → Type 0
  Settled attempt r =
      P attempt.state 0 0 r
      × ((attempt.completed ≡ none) ⊎ (G.completion attempt.state ≡ attempt.completed))

  send_after-Keeps :
      (s : G.State) (role : PlayerRole) (over : Option G.Completion) (text : Option String)
      (r : Run G)
      → P s 0 1 r
      → Keeps plan P I s 0 0 (send_after agents plan role over text r)
  unfolding send_after
  send_after-Keeps s role none (some text) r h =
      bind-Keeps plan P I (λ _ r'. P s 0 0 r') s 0 1 (deliver_message agents role text r) _
        (deliver_message-Keeps plan P I agents s 0 1 r role text h) (λ _ r' h'. I.sends s 0 r' h')
  send_after-Keeps s role (some completion) text r h = I.weaken s 0 1 r h
  send_after-Keeps s role none none r h = I.weaken s 0 1 r h

  attempt_accepted-Settled :
      (s : G.State) (role : PlayerRole) (act : G.Action) (text : Option String)
      (input : Option (DecisionInput G.Value)) (next : G.State) (r : Run G)
      → G.apply_action s act role ≡ inr next
      → P s 1 1 r
      → Ensures
          (Somewhere plan P I)
          Settled
          (attempt_accepted agents plan s role act text input next r)
  attempt_accepted-Settled s role act text input next r legal h =
      let S : Attempt G → Run G → Type 0 = Settled in
      bind-Keeps plan P I S next 0 1
        (observe_transition_agents agents next role act (count_accepted r)) _
        (observe_transition_agents-Keeps plan P I agents s next 0 1 (count_accepted r) role act
          (I.reach s 1 1 r h) legal (I.accepts s next act role 1 r legal h))
        (λ _ r' h'.
          bind-Keeps plan P I S next 0 1
            (record_trajectory plan next role act input (accepted s (G.completion next)) r') _
            (record_trajectory-Keeps plan P I next 0 1 next role act input _ r' h')
            (λ _ r'' h''.
              bind-Keeps plan P I S next 0 0
                (send_after agents plan role (G.completion next) text r'') _
                (send_after-Keeps next role (G.completion next) text r'' h'')
                (λ _ r3 h3. (h3, inr refl))))

  attempt_rejected-Settled :
      (s : G.State) (role : PlayerRole) (act : G.Action) (input : Option (DecisionInput G.Value))
      (error : ActionRejection) (r : Run G)
      → P s 1 1 r
      → Ensures (Somewhere plan P I) Settled (attempt_rejected agents plan s role act input error r)
  attempt_rejected-Settled s role act input error r h =
      bind-Keeps plan P I Settled s 0 1
        (record_trajectory plan s role act input (rejected error) (count_rejected r)) _
        (record_trajectory-Keeps plan P I s 0 1 s role act input _ _ (I.rejects s 1 r h))
        (λ _ r' h'. (I.weaken s 0 1 r' h', inl refl))

  attempt_with-Settled :
      (s : G.State) (role : PlayerRole) (act : G.Action) (text : Option String)
      (input : Option (DecisionInput G.Value)) (result : ActionRejection ⊎ G.State) (r : Run G)
      → G.apply_action s act role ≡ result
      → P s 1 1 r
      → Ensures
          (Somewhere plan P I)
          Settled
          (attempt_with agents plan s role act text input result r)
  attempt_with-Settled s role act text input (inl error) r legal h =
      attempt_rejected-Settled s role act input error r h
  attempt_with-Settled s role act text input (inr next) r legal h =
      attempt_accepted-Settled s role act text input next r legal h

  apply_action-Settled :
      (s : G.State) (role : PlayerRole) (act : G.Action) (text : Option String)
      (input : Option (DecisionInput G.Value)) (r : Run G)
      → P s 1 1 r
      → Ensures (Somewhere plan P I) Settled (apply_action agents plan s role act text input r)
  unfolding apply_action
  apply_action-Settled s role act text input r h =
      attempt_with-Settled s role act text input (G.apply_action s act role) r refl h

  pub execute-Settled :
      (s : G.State) (role : PlayerRole) (response : Option (AgentResponse G.Action))
      (input : Option (DecisionInput G.Value)) (r : Run G)
      → P s 1 1 r
      → Ensures (Somewhere plan P I) Settled (execute agents plan s role response input r)
  unfolding execute
  execute-Settled s role none input r h = (I.weaken s 1 1 r h, inl refl)
  execute-Settled s role (some (action act)) input r h =
      apply_action-Settled s role act none input r h
  execute-Settled s role (some (action_and_message act text)) input r h =
      apply_action-Settled s role act (some text) input r h
  execute-Settled s role (some (message text)) input r h =
      bind-Keeps plan P I Settled s 1 1 (deliver_message agents role text r) _
        (deliver_message-Keeps plan P I agents s 1 1 r role text h)
        (λ _ r' h'. (I.weaken s 1 0 _ (I.sends s 1 r' h'), inl refl))
