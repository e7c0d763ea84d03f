-- ===== src/Experiment/Calls.antt =====
-- agent_experiment.rs: the runner's calls of the agents. A computation passes the run on and gives a
-- value or the failure that ends the session.
use parlando.Common.{◌∷◌, Option, some, String}
use parlando.Runtime.Role.{PlayerRole, a, b}
use parlando.Experiment.Schedule.{AgentResponse, other_role}
use parlando.Experiment.Model.{
  Game, Call, start, respond, observe_transition, observe_message, finish, Answer, done, raised,
  timed_out, Agents, Run, SessionFailure,
}

pub data Outcome (G : Game) (A : Type 0) : Type 0 where
  ok : A → Run G → Outcome G A
  fails : SessionFailure → Run G → Outcome G A

abbrev pub M : Game → Type 0 → Type 0
M G A = Run G → Outcome G A

abbrev pub callback_failure : String → PlayerRole → String → SessionFailure
callback_failure phase role error = record { phase = phase; role = some role; error = error }

abbrev pub callback_timeout_failure : String → PlayerRole → SessionFailure
callback_timeout_failure phase role = callback_failure phase role "agent callback timed out"

module _ {G : Game} where
  abbrev pub and_then : {A B : Type 0} → Outcome G A → (A → M G B) → Outcome G B
  and_then (ok x r) f = f x r
  and_then (fails failure r) f = fails failure r

  infixl 5 ◌>>=◌ ◌>>◌
  abbrev pub ◌>>=◌ : {A B : Type 0} → M G A → (A → M G B) → M G B
  ◌>>=◌ m f r = and_then (m r) f

  abbrev pub ◌>>◌ : {B : Type 0} → M G (Unit {0}) → M G B → M G B
  m >> k = m >>= λ _. k

  abbrev pub pure : {A : Type 0} → A → M G A
  pure x r = ok x r

  abbrev pub fail : {A : Type 0} → SessionFailure → M G A
  fail failure r = fails failure r

  abbrev pub modify : (Run G → Run G) → M G (Unit {0})
  modify f r = ok tt (f r)

  abbrev pub called : Call G → Run G → Run G
  called call r = record r { calls = call ∷ r.calls }

  -- `timeout(…).await` with both of its errors turned into the failure of a phase.
  abbrev pub answered : {A : Type 0} → String → PlayerRole → Answer A → M G A
  answered phase role (done x) = pure x
  answered phase role (raised error) = fail (callback_failure phase role error)
  answered phase role timed_out = fail (callback_timeout_failure phase role)

  module _ (agents : Agents G) where
    unfoldable pub callback : String → PlayerRole → Call G → M G (Unit {0})
    callback phase role call r =
        answered phase role (agents.callback (call ∷ r.calls)) (called call r)

    unfoldable pub ask : PlayerRole → G.Affordances → M G (Option (AgentResponse G.Action))
    ask role affordances r =
        answered "respond" role (agents.response (respond role affordances ∷ r.calls))
          (called (respond role affordances) r)

    unfoldable pub start_agents : G.State → M G (Unit {0})
    start_agents state = do
      callback "start" a (start a (G.observation state a))
      callback "start" b (start b (G.observation state b))

    unfoldable pub finish_agents : G.Completion → M G (Unit {0})
    finish_agents completion = do
      callback "finish" a (finish a completion)
      callback "finish" b (finish b completion)

    unfoldable pub observe_transition_agents : G.State → PlayerRole → G.Action → M G (Unit {0})
    observe_transition_agents next actor action = do
      callback "observe_transition" a (observe_transition a actor action (G.observation next a))
      callback "observe_transition" b (observe_transition b actor action (G.observation next b))

    unfoldable pub deliver_message : PlayerRole → String → M G (Unit {0})
    deliver_message sender message =
        let receiver = other_role sender in
        callback "observe_message" receiver (observe_message receiver sender message)
