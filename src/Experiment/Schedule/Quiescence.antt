-- ===== src/Experiment/Schedule/Quiescence.antt =====
-- agent_experiment.rs: when a schedule finds no further agent.
use parlando.Common.{
  ◌≡◌, refl, Bool, true, false, ◌||◌, Option, none, some, List, [], ◌∷◌, arith, is_some,
  if◌then◌else◌,
}
use parlando.Runtime.Role.{PlayerRole, a, b, ActionRejection, eq_PlayerRole}
use parlando.Experiment.Schedule.{
  AgentResponse, action, message, action_and_message, Alternation, new, other_role,
  next_every_response, next_after_action,
}

-- One decision as a schedule is told of it.
abbrev pub Decided : Type 0 → Type 0
Decided Action = Option (AgentResponse Action) × Option ActionRejection

-- A schedule's `next`.
abbrev pub Next : Type 0 → Type 0
Next Action =
    Alternation
    → PlayerRole
    → Option (AgentResponse Action)
    → Option ActionRejection
    → Option PlayerRole × Alternation

abbrev stops_with : (PlayerRole → Alternation → Bool) → Option PlayerRole × Alternation → Bool
stops_with later (none, self) = true
stops_with later (some role, self) = later role self

-- What is remembered is a yield of the other role, the last decision.
abbrev Remembers : Option PlayerRole → PlayerRole → Bool → Type 0
Remembers none role before = before ≡ false
Remembers (some yielded) role before = (yielded ≡ other_role role) × (before ≡ true)

module _ {Action : Type 0} where
  -- Whether a schedule stops somewhere in a sequence of decisions.
  abbrev pub stops : Next Action → Alternation → PlayerRole → List (Decided Action) → Bool
  stops next self role [] = false
  stops next self role ((response, rejection) ∷ rest) =
      stops_with (λ role' self'. stops next self' role' rest) (next self role response rejection)

  -- Whether two decisions next to each other are both yields, `before` telling of the one before.
  abbrev pub both_yield : Bool → List (Decided Action) → Bool
  both_yield before [] = false
  both_yield before ((none, rejection) ∷ rest) = before || both_yield true rest
  both_yield before ((some response, rejection) ∷ rest) = both_yield false rest

  every_response-Remembers :
      (first role : PlayerRole) (yielded : Option PlayerRole) (before : Bool)
      (decided : List (Decided Action))
      → Remembers yielded role before
      → stops next_every_response
          (record { first_role = first; previous_yield = yielded })
          role
          decided
        ≡ both_yield before decided
  unfolding next_every_response
  every_response-Remembers first role yielded before [] h = refl
  every_response-Remembers first a none before ((none, rejection) ∷ rest) h =
      ground (arith, every_response-Remembers first b (some a) true rest (refl, refl))
  every_response-Remembers first b none before ((none, rejection) ∷ rest) h =
      ground (arith, every_response-Remembers first a (some b) true rest (refl, refl))
  every_response-Remembers first a (some yielded) before ((none, rejection) ∷ rest) h = ground arith
  every_response-Remembers first b (some yielded) before ((none, rejection) ∷ rest) h = ground arith
  every_response-Remembers first role yielded before ((some response, rejection) ∷ rest) h =
      every_response-Remembers first (other_role role) none false rest refl

  after_action-Remembers :
      (first role : PlayerRole) (yielded : Option PlayerRole) (before : Bool)
      (decided : List (Decided Action))
      → Remembers yielded role before
      → stops next_after_action
          (record { first_role = first; previous_yield = yielded })
          role
          decided
        ≡ both_yield before decided
  unfolding next_after_action
  after_action-Remembers first role yielded before [] h = refl
  after_action-Remembers first a none before ((none, rejection) ∷ rest) h =
      ground (arith, after_action-Remembers first b (some a) true rest (refl, refl))
  after_action-Remembers first b none before ((none, rejection) ∷ rest) h =
      ground (arith, after_action-Remembers first a (some b) true rest (refl, refl))
  after_action-Remembers first a (some yielded) before ((none, rejection) ∷ rest) h = ground arith
  after_action-Remembers first b (some yielded) before ((none, rejection) ∷ rest) h = ground arith
  after_action-Remembers first role yielded before ((some (message text), rejection) ∷ rest) h =
      after_action-Remembers first role none false rest refl
  after_action-Remembers first role yielded before ((some (action act), rejection) ∷ rest) h =
      after_action-Remembers first (if is_some rejection then role else other_role role) none false
        rest refl
  after_action-Remembers first role yielded before
        ((some (action_and_message act text), rejection) ∷ rest) h =
      after_action-Remembers first (if is_some rejection then role else other_role role) none false
        rest refl

  -- Either schedule finds no further agent exactly when two decisions in a row are yields.
  pub stops-both_yield :
      (role : PlayerRole) (decided : List (Decided Action))
      → (stops next_every_response (new role) role decided ≡ both_yield false decided)
        × (stops next_after_action (new role) role decided ≡ both_yield false decided)
  unfolding new
  stops-both_yield role decided = (
    every_response-Remembers role role none false decided refl,
    after_action-Remembers role role none false decided refl,
  )
