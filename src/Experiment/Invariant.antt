-- ===== src/Experiment/Invariant.antt =====
-- agent_experiment.rs: the rule for invariants of a session. An invariant `P s x y r` speaks of the
-- game's state, of the run, and of the actions and messages that the decision may still count.
pub mod Recording
pub mod Attempts
pub mod Decision
pub mod Loop
use parlando.Common.{
  ℕ, zero, suc, ◌+◌, ◌<◌, ◌≡◌, refl, Bool, true, false, Option, none, some, String, inl, inr, ◌⊎◌,
  List, [], ◌∷◌, arith, Bool-cases, Option-cases, leb,
}
use parlando.Runtime.Role.{PlayerRole, a, b, ActionRejection}
use parlando.Experiment.Schedule.{
  AgentResponse, action, message, action_and_message, AgentSchedule, other_role,
}
use parlando.Experiment.Model.{
  Game, SessionStatus, completed, quiescent, decision_limit, action_limit, message_limit,
  rejection_limit, deadline, failed, DecisionInput, SessionPlan, Call, create, start, respond,
  observe_transition, observe_message, finish, shutdown, Answer, done, raised, timed_out, Agents,
  Run, SessionFailure, SessionOutcome, TraceEntry, TrajectoryStep, limit_outcome,
}
use parlando.Experiment.Calls.{
  Outcome, ok, fails, and_then, called, callback, ask, start_agents, finish_agents, answered,
  observe_transition_agents, deliver_message,
}
use parlando.Experiment.Recording.{
  decision_input, check_learner_response, record_trajectory, record_trace, TrajectoryOutcome,
}
use parlando.Experiment.Decision.{
  Attempt, Pass, exits, continues, count_decision, count_accepted, count_rejected, count_message,
  send_after, apply_action, execute, conclude, decide, pass,
}

module _ {G : Game} where
  -- `E` of the run where a computation fails, and `Q` of its value and the run otherwise.
  abbrev pub Ensures : {A : Type 0} → (Run G → Type 0) → (A → Run G → Type 0) → Outcome G A → Type 0
  Ensures E Q (ok x r) = Q x r
  Ensures E Q (fails failure r) = E r

  pub and_then-Ensures :
      {A B : Type 0} (E : Run G → Type 0) (Q : A → Run G → Type 0) (S : B → Run G → Type 0)
      (o : Outcome G A) (f : A → Run G → Outcome G B)
      → Ensures E Q o
      → ((x : A) (r : Run G) → Q x r → Ensures E S (f x r))
      → Ensures E S (and_then o f)
  and_then-Ensures E Q S (ok x r) f h k = k x r h
  and_then-Ensures E Q S (fails failure r) f h k = h

  -- What the runner may tell an agent while the game is in a state; a transition comes from a state
  -- that was reached before.
  abbrev pub Fits : (G.State → Type 0) → G.State → Call G → Type 0
  Fits Reached s (create role) = ⊥
  Fits Reached s (start role seen) = seen ≡ G.observation s role
  Fits Reached s (respond role affordances) = affordances ≡ G.available_actions s role
  Fits Reached s (observe_transition role actor act seen) =
      (seen ≡ G.observation s role)
      × ((before : G.State) × Reached before × (G.apply_action before act actor ≡ inr s))
  Fits Reached s (observe_message role sender text) = role ≡ other_role sender
  Fits Reached s (finish role completion) = G.completion s ≡ some completion
  Fits Reached s (shutdown role) = ⊥

  abbrev pub noted : Option (List (TraceEntry G)) → List (TrajectoryStep G) → Run G → Run G
  noted trace trajectory r = record r { trace = trace; trajectory = trajectory }

  module _ (plan : SessionPlan G) where
    -- The counters that a further decision may still raise.
    pub record IsUnder (r : Run G) : Type 0 where
      pub accepts : r.accepted_actions < plan.limits.accepted_actions
      pub sends : r.messages < plan.limits.messages
      pub rejects : r.rejected_actions < plan.limits.rejected_actions

    pub record IsInvariant (P : G.State → ℕ → ℕ → Run G → Type 0) : Type 1 where
      pub Reached : G.State → Type 0
      pub reach : (s : G.State) (x y : ℕ) (r : Run G) → P s x y r → Reached s
      pub call :
          (s : G.State) (x y : ℕ) (r : Run G) (c : Call G)
          → Fits Reached s c
          → P s x y r
          → P s x y (called c r)
      pub note :
          (s : G.State) (x y : ℕ) (r : Run G) (t : Option (List (TraceEntry G)))
          (steps : List (TrajectoryStep G))
          → P s x y r
          → P s x y (noted t steps r)
      pub accepts :
          (s next : G.State) (act : G.Action) (role : PlayerRole) (y : ℕ) (r : Run G)
          → G.apply_action s act role ≡ inr next
          → P s 1 y r
          → P next 0 y (count_accepted r)
      pub rejects : (s : G.State) (y : ℕ) (r : Run G) → P s 1 y r → P s 0 y (count_rejected r)
      pub sends : (s : G.State) (x : ℕ) (r : Run G) → P s x 1 r → P s x 0 (count_message r)
      pub weaken : (s : G.State) (x y : ℕ) (r : Run G) → P s x y r → P s 0 0 r

    module _ (P : G.State → ℕ → ℕ → Run G → Type 0) (I : IsInvariant P) where
      -- In some state the invariant holds.
      abbrev pub Somewhere : Run G → Type 0
      Somewhere r = (s : G.State) × P s 0 0 r

      abbrev pub Keeps : {A : Type 0} → G.State → ℕ → ℕ → Outcome G A → Type 0
      Keeps s x y = Ensures Somewhere (λ _ r. P s x y r)

      pub bind-Keeps :
          {A B : Type 0} (S : B → Run G → Type 0) (s : G.State) (x y : ℕ) (o : Outcome G A)
          (f : A → Run G → Outcome G B)
          → Keeps s x y o
          → ((v : A) (r : Run G) → P s x y r → Ensures Somewhere S (f v r))
          → Ensures Somewhere S (and_then o f)
      bind-Keeps S s x y o f h k = and_then-Ensures Somewhere (λ _ r. P s x y r) S o f h k

      answered-Keeps :
          {A : Type 0} (s : G.State) (x y : ℕ) (phase : String) (role : PlayerRole) (z : Answer A)
          (r : Run G)
          → P s x y r
          → Keeps s x y (answered phase role z r)
      answered-Keeps s x y phase role (done v) r h = h
      answered-Keeps s x y phase role (raised error) r h = (s, I.weaken s x y r h)
      answered-Keeps s x y phase role timed_out r h = (s, I.weaken s x y r h)

      module _ (agents : Agents G) where
        pub callback-Keeps :
            (s : G.State) (x y : ℕ) (phase : String) (role : PlayerRole) (c : Call G) (r : Run G)
            → Fits I.Reached s c
            → P s x y r
            → Keeps s x y (callback agents phase role c r)
        unfolding callback
        callback-Keeps s x y phase role c r f h =
            answered-Keeps s x y phase role _ (called c r) (I.call s x y r c f h)

        pub ask-Keeps :
            (s : G.State) (x y : ℕ) (role : PlayerRole) (r : Run G)
            → P s x y r
            → Keeps s x y (ask agents role (G.available_actions s role) r)
        unfolding ask
        ask-Keeps s x y role r h = answered-Keeps s x y "respond" role _ _ (I.call s x y r _ refl h)

        pub start_agents-Keeps :
            (s : G.State) (x y : ℕ) (r : Run G) → P s x y r → Keeps s x y (start_agents agents s r)
        unfolding start_agents
        start_agents-Keeps s x y r h =
            bind-Keeps (λ _ r'. P s x y r') s x y
              (callback agents "start" a (start a (G.observation s a)) r) _
              (callback-Keeps s x y _ _ _ r refl h)
              (λ _ r' h'. callback-Keeps s x y _ _ _ r' refl h')

        pub finish_agents-Keeps :
            (s : G.State) (x y : ℕ) (r : Run G) (completion : G.Completion)
            → G.completion s ≡ some completion
            → P s x y r
            → Keeps s x y (finish_agents agents completion r)
        unfolding finish_agents
        finish_agents-Keeps s x y r completion over h =
            bind-Keeps (λ _ r'. P s x y r') s x y
              (callback agents "finish" a (finish a completion) r) _
              (callback-Keeps s x y _ _ _ r over h)
              (λ _ r' h'. callback-Keeps s x y _ _ _ r' over h')

        pub observe_transition_agents-Keeps :
            (before s : G.State) (x y : ℕ) (r : Run G) (actor : PlayerRole) (act : G.Action)
            → I.Reached before
            → G.apply_action before act actor ≡ inr s
            → P s x y r
            → Keeps s x y (observe_transition_agents agents s actor act r)
        unfolding observe_transition_agents
        observe_transition_agents-Keeps before s x y r actor act past legal h =
            bind-Keeps (λ _ r'. P s x y r') s x y
              (callback agents "observe_transition" a
                (observe_transition a actor act (G.observation s a)) r)
              _ (callback-Keeps s x y _ _ _ r (refl, (before, past, legal)) h)
              (λ _ r' h'. callback-Keeps s x y _ _ _ r' (refl, (before, past, legal)) h')

        pub deliver_message-Keeps :
            (s : G.State) (x y : ℕ) (r : Run G) (sender : PlayerRole) (text : String)
            → P s x y r
            → Keeps s x y (deliver_message agents sender text r)
        unfolding deliver_message
        deliver_message-Keeps s x y r sender text h = callback-Keeps s x y _ _ _ r refl h
