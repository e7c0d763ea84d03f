-- ===== src/Experiment/Invariant/Recording.antt =====
-- agent_experiment.rs: what a session records keeps an invariant.
use parlando.Common.{
  ℕ, Bool, true, false, Option, none, some, String, inl, inr, ◌⊎◌, ◌||◌, ◌&&◌, not, is_some,
  if◌then◌else◌,
}
use parlando.Runtime.Role.{PlayerRole}
use parlando.Experiment.Schedule.{AgentResponse}
use parlando.Experiment.Model.{Game, DecisionInput, SessionPlan, TrainingCapture, Run}
use parlando.Experiment.Calls.{M, fail, pure}
use parlando.Experiment.Recording.{
  decision_input, check_learner_response, record_trajectory, TrajectoryOutcome,
}
use parlando.Experiment.Invariant.{IsInvariant, Keeps, bind-Keeps}
use parlando.Experiment.Recording.{
  captures, is_full, is_action_only, training_response_failure, record_with, record_captured,
  serialized_input, serialized,
}

module _ {G : Game} (plan : SessionPlan G) (P : G.State → ℕ → ℕ → Run G → Type 0)
    (I : IsInvariant plan P) where
  serialized-Keeps :
      (s : G.State) (x y : ℕ) (phase : String) (role : PlayerRole) (v : String ⊎ G.Value)
      (r : Run G)
      → P s x y r
      → Keeps plan P I s x y (serialized phase role v r)
  serialized-Keeps s x y phase role (inl error) r h = (s, I.weaken s x y r h)
  serialized-Keeps s x y phase role (inr value) r h = h

  if-Keeps :
      {A : Type 0} (s : G.State) (x y : ℕ) (test : Bool) (m n : M G A) (r : Run G)
      → Keeps plan P I s x y (m r)
      → Keeps plan P I s x y (n r)
      → Keeps plan P I s x y ((if test then m else n) r)
  if-Keeps s x y true m n r h k = h
  if-Keeps s x y false m n r h k = k

  serialized_input-Keeps :
      (s : G.State) (x y : ℕ) (phase : String) (role : PlayerRole) (affordances : G.Affordances)
      (r : Run G)
      → P s x y r
      → Keeps plan P I s x y (serialized_input plan phase s role affordances r)
  unfolding serialized_input
  serialized_input-Keeps s x y phase role affordances r h =
      bind-Keeps plan P I (λ _ r'. P s x y r') s x y
        (serialized phase role (G.observation_json (G.observation s role)) r) _
        (serialized-Keeps s x y phase role _ r h)
        (λ _ r' h'.
          bind-Keeps plan P I (λ _ r'. P s x y r') s x y
            (serialized phase role (G.affordances_json affordances) r') _
            (serialized-Keeps s x y phase role _ r' h') (λ _ r'' h''. h''))

  pub decision_input-Keeps :
      (s : G.State) (x y : ℕ) (role : PlayerRole) (affordances : G.Affordances) (r : Run G)
      → P s x y r
      → Keeps plan P I s x y (decision_input plan s role affordances r)
  unfolding decision_input
  decision_input-Keeps s x y role affordances r h =
      if-Keeps s x y (captures plan role || is_full plan.trace) _ _ r
        (serialized_input-Keeps s x y _ role affordances r h) h

  pub check_learner_response-Keeps :
      (s : G.State) (x y : ℕ) (role : PlayerRole) (input : Option (DecisionInput G.Value))
      (response : Option (AgentResponse G.Action)) (r : Run G)
      → P s x y r
      → Keeps plan P I s x y (check_learner_response plan role input response r)
  unfolding check_learner_response
  check_learner_response-Keeps s x y role input response r h =
      if-Keeps {A = Unit {0}} s x y (is_some input && not (is_action_only response))
        (fail (training_response_failure role)) (pure tt) r (s, I.weaken s x y r h) h

  record_captured-Keeps :
      (s : G.State) (x y : ℕ) (capture : TrainingCapture G) (next : G.State) (role : PlayerRole)
      (act : G.Action) (input : DecisionInput G.Value) (outcome : TrajectoryOutcome G) (r : Run G)
      → P s x y r
      → Keeps plan P I s x y (record_captured plan capture next role act input outcome r)
  unfolding record_captured
  record_captured-Keeps s x y capture next role act input outcome r h =
      bind-Keeps plan P I (λ _ r'. P s x y r') s x y
        (serialized "trajectory" role (G.observation_json (G.observation next role)) r) _
        (serialized-Keeps s x y _ role _ r h)
        (λ seen r' h'.
          bind-Keeps plan P I (λ _ r'. P s x y r') s x y
            (serialized "trajectory" role (G.action_json act) r') _
            (serialized-Keeps s x y _ role _ r' h')
            (λ value r'' h''. I.note s x y r'' r''.trace _ h''))

  record_with-Keeps :
      (s : G.State) (x y : ℕ) (capture : Option (TrainingCapture G)) (next : G.State)
      (role : PlayerRole) (act : G.Action) (input : Option (DecisionInput G.Value))
      (outcome : TrajectoryOutcome G) (r : Run G)
      → P s x y r
      → Keeps plan P I s x y (record_with plan capture next role act input outcome r)
  record_with-Keeps s x y (some capture) next role act (some input) outcome r h =
      record_captured-Keeps s x y capture next role act input outcome r h
  record_with-Keeps s x y none next role act input outcome r h = h
  record_with-Keeps s x y (some capture) next role act none outcome r h = h

  pub record_trajectory-Keeps :
      (s : G.State) (x y : ℕ) (next : G.State) (role : PlayerRole) (act : G.Action)
      (input : Option (DecisionInput G.Value)) (outcome : TrajectoryOutcome G) (r : Run G)
      → P s x y r
      → Keeps plan P I s x y (record_trajectory plan next role act input outcome r)
  unfolding record_trajectory
  record_trajectory-Keeps s x y next role act input outcome r h =
      record_with-Keeps s x y plan.training_capture next role act input outcome r h
