-- ===== src/Experiment/Schedule.antt =====
-- agent_experiment.rs and agents.rs: which agent is asked next. A schedule is an interface; the two
-- that the program registers fill it.
pub mod Quiescence
use parlando.Common.{
  ℕ, ◌≡◌, ◌≢◌, refl, Bool, true, false, Option, none, some, List, [], ◌∷◌, ◌==◌, is_some,
  if◌then◌else◌, arith, String, Eq,
}
use parlando.Runtime.Role.{PlayerRole, a, b, role_eq, ActionRejection, eq_PlayerRole}

pub data AgentResponse (Action : Type 0) : Type 0 where
  action : Action → AgentResponse Action
  message : String → AgentResponse Action
  action_and_message : Action → String → AgentResponse Action

-- `AgentResponse::into_parts`.
unfoldable pub into_parts : {Action : Type 0} → AgentResponse Action → Option Action × Option String
into_parts (action act) = (some act, none)
into_parts (message text) = (none, some text)
into_parts (action_and_message act text) = (some act, some text)

abbrev pub other_role : PlayerRole → PlayerRole
other_role a = b
other_role b = a

-- The trait `AgentSchedule`. A value of `Memory` is what an implementation keeps between calls.
pub record AgentSchedule (Action : Type 0) : Type 1 where
  pub Memory : Type 0
  pub start : Memory
  pub first : Memory → PlayerRole
  pub next :
      Memory
      → PlayerRole
      → Option (AgentResponse Action)
      → Option ActionRejection
      → Option PlayerRole × Memory

pub record Alternation : Type 0 where
  pub first_role : PlayerRole
  pub previous_yield : Option PlayerRole

-- `Alternation` is the state of both `AlternateEveryResponse` and `AlternateAfterAction`.
unfoldable pub new : PlayerRole → Alternation
new role = record { first_role = role; previous_yield = none }

abbrev pub other_yielded : Option PlayerRole → PlayerRole → Bool
other_yielded none previous = false
other_yielded (some yielded) previous = yielded == other_role previous

module _ {Action : Type 0} where
  unfoldable pub next_every_response :
      Alternation
      → PlayerRole
      → Option (AgentResponse Action)
      → Option ActionRejection
      → Option PlayerRole × Alternation
  next_every_response self previous none rejection =
      if other_yielded self.previous_yield previous
      then (none, self)
      else (some (other_role previous), record self { previous_yield = some previous })
  next_every_response self previous (some response) rejection =
      (some (other_role previous), record self { previous_yield = none })

  unfoldable pub next_after_action :
      Alternation
      → PlayerRole
      → Option (AgentResponse Action)
      → Option ActionRejection
      → Option PlayerRole × Alternation
  next_after_action self previous none rejection =
      if other_yielded self.previous_yield previous
      then (none, self)
      else (some (other_role previous), record self { previous_yield = some previous })
  next_after_action self previous (some (message text)) rejection =
      (some previous, record self { previous_yield = none })
  next_after_action self previous (some (action act)) rejection = (
    some (if is_some rejection then previous else other_role previous),
    record self { previous_yield = none },
  )
  next_after_action self previous (some (action_and_message act text)) rejection = (
    some (if is_some rejection then previous else other_role previous),
    record self { previous_yield = none },
  )

unfoldable pub alternate_every_response : (Action : Type 0) → PlayerRole → AgentSchedule Action
unfolding new
alternate_every_response Action role = record {
  Memory = Alternation;
  start = new role;
  first = λ self. self.first_role;
  next = next_every_response;
}

unfoldable pub alternate_after_action : (Action : Type 0) → PlayerRole → AgentSchedule Action
unfolding new
alternate_after_action Action role = record {
  Memory = Alternation;
  start = new role;
  first = λ self. self.first_role;
  next = next_after_action;
}
