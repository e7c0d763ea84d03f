-- ===== src/Experiment/Runner/Play.antt =====
-- agent_experiment.rs: a session plays by the rules of its game, and tells its agents nothing else.
use parlando.Common.{
  ℕ, ◌+◌, ◌<◌, ◌≡◌, refl, true, Option, none, some, String, inl, inr, ◌⊎◌, List, [], ◌∷◌, arith,
  All, all, sym, ap, subst, ◌∙◌,
}
use parlando.Runtime.Role.{PlayerRole}
use parlando.Experiment.Limits.{IsUsable}
use parlando.Experiment.Schedule.{other_role}
use parlando.Experiment.Model.{
  Game, SessionStatus, SessionPlan, Call, create, start, respond, observe_transition,
  observe_message, finish, shutdown, Agents, Run, SessionOutcome, SessionResult, record_failure,
}
use parlando.Experiment.Calls.{Outcome, ok, fails}
use parlando.Experiment.Runner.{run, shut_down, summary, shutdown_agents}
use parlando.Experiment.Decision.{count_decision}
use parlando.Experiment.Runner.Bounds.{agents_run-IsUnder}
use parlando.Experiment.Runner.Courses.{is_lifecycle_call, Course, Played, agents_run, run-Course}
use parlando.Experiment.Invariant.{Fits, IsUnder, IsInvariant}
use parlando.Experiment.Invariant.Decision.{Truthful}
use parlando.Experiment.Invariant.Loop.{Concludes, drive_session-Concludes}

-- The states that the game reaches in a number of accepted actions.
pub data Playthrough (G : Game) (from : G.State) : ℕ → G.State → Type 0 where
  here : Playthrough G from 0 from
  step :
      {n m : ℕ} {s next : G.State} (act : G.Action) (role : PlayerRole)
      → Playthrough G from n s
      → G.apply_action s act role ≡ inr next
      → m ≡ n + 1
      → Playthrough G from m next

-- Some number of accepted actions leads to the state.
abbrev pub Reaches : (G : Game) → G.State → G.State → Type 0
Reaches G from s = (n : ℕ) × Playthrough G from n s

module _ {G : Game} where
  -- What the agents may be told of a session that started in a state.
  abbrev pub Told : G.State → Call G → Type 0
  Told from (create role) = Unit
  Told from (start role seen) =
      (n : ℕ) × (s : G.State) × Playthrough G from n s × (seen ≡ G.observation s role)
  Told from (respond role affordances) =
      (n : ℕ) × (s : G.State) × Playthrough G from n s × (affordances ≡ G.available_actions s role)
  Told from (observe_transition role actor act seen) =
      (n : ℕ) × (before : G.State) × (s : G.State) × Playthrough G from n before
      × (G.apply_action before act actor ≡ inr s)
      × (seen ≡ G.observation s role)
  Told from (observe_message role sender text) = role ≡ other_role sender
  Told from (finish role completion) =
      (n : ℕ) × (s : G.State) × Playthrough G from n s × (G.completion s ≡ some completion)
  Told from (shutdown role) = Unit

  Fits-Told :
      (from s : G.State) (n : ℕ) (c : Call G)
      → Playthrough G from n s
      → Fits (Reaches G from) s c
      → Told from c
  Fits-Told from s n (create role) p f = tt
  Fits-Told from s n (start role seen) p f = (n, s, p, f)
  Fits-Told from s n (respond role affordances) p f = (n, s, p, f)
  Fits-Told from s n (observe_transition role actor act seen) p (view, (before, (m, q), legal)) =
      (m, before, s, q, legal, view)
  Fits-Told from s n (observe_message role sender text) p f = f
  Fits-Told from s n (finish role completion) p f = (n, s, p, f)
  Fits-Told from s n (shutdown role) p f = tt

module _ {G : Game} (agents : Agents G) (plan : SessionPlan G) where
  abbrev pub Fair : G.State → G.State → ℕ → ℕ → Run G → Type 0
  Fair from s x y r = Playthrough G from r.accepted_actions s × All (Told from) r.calls

  pub Fair-IsInvariant : (from : G.State) → IsInvariant plan (Fair from)
  Fair-IsInvariant from = record {
    Reached = Reaches G from;
    reach = λ s x y r h. (r.accepted_actions, h.0);
    call = λ s x y r c f h. (h.0, (Fits-Told from s r.accepted_actions c h.0 f, h.1));
    note = λ s x y r t steps h. h;
    accepts = λ s next act role y r legal h. (step act role h.0 legal refl, h.1);
    rejects = λ s y r h. h;
    sends = λ s x r h. h;
    weaken = λ s x y r h. h;
  }

  pub Fair-decides :
      (from s : G.State) (r : Run G)
      → r.decisions < plan.limits.decisions
      → IsUnder plan r
      → Fair from s 0 0 r
      → Fair from s 1 1 (count_decision r)
  Fair-decides from s r more u h = h

  Fair_start : (from : G.State) → Fair from from 0 0 (agents_run agents plan)
  Fair_start from = (here, (tt, (tt, tt)))

  abbrev pub Good : G.State → Outcome G (SessionOutcome G) → Type 0
  Good from outcome =
      Concludes agents plan (Fair from) (Fair-IsInvariant from) (Fair-decides from) (some outcome)

  pub Played-Good :
      (fuel : ℕ) (result : SessionResult G) (from : G.State)
      (outcome : Outcome G (SessionOutcome G))
      → IsUsable plan.limits
      → Played agents plan fuel result from outcome
      → Good from outcome
  Played-Good fuel result from outcome usable (initial, e, own) =
      subst (Concludes agents plan (Fair from) (Fair-IsInvariant from) (Fair-decides from)) e (
        drive_session-Concludes agents plan (Fair from) (Fair-IsInvariant from) (Fair-decides from)
          fuel from _ (Fair_start from) (agents_run-IsUnder agents plan usable))

  -- A completion that the game gives after the result's accepted actions.
  abbrev pub Earned : SessionResult G → G.Completion → Type 0
  Earned result completion =
      (from : G.State) × (s : G.State) × (G.initial_state plan.context ≡ inr from)
      × Playthrough G from result.run.accepted_actions s
      × (G.completion s ≡ some completion)

  Truthful-completion :
      (from s : G.State) (status : SessionStatus) (o : Option G.Completion)
      (completion : G.Completion)
      → Truthful plan (Fair from) (Fair-IsInvariant from) agents s status o
      → o ≡ some completion
      → G.completion s ≡ some completion
  Truthful-completion from s status none completion truth e = cc
  Truthful-completion from s status (some other) completion (_, own) e = own ∙ e

  summary-Earned :
      (outcome : Outcome G (SessionOutcome G)) (from : G.State) (completion : G.Completion)
      → G.initial_state plan.context ≡ inr from
      → Good from outcome
      → (shut_down agents plan (summary agents plan outcome)).completion ≡ some completion
      → Earned (shut_down agents plan (summary agents plan outcome)) completion
  unfolding shutdown_agents record_failure
  summary-Earned (ok outcome r) from completion initial (s, h, truth) e =
      let own : G.completion s ≡ some completion =
        Truthful-completion from s outcome.status outcome.completion completion truth e in
      (from, s, initial, h.0, own)
  summary-Earned (fails failure r) from completion initial h e = cc

  Course-Earned :
      (fuel : ℕ) (result : SessionResult G) (completion : G.Completion)
      → IsUsable plan.limits
      → Course agents plan fuel result
      → result.completion ≡ some completion
      → Earned result completion
  Course-Earned fuel result completion usable (inl unplayed) e = absurd (ground arith)
  Course-Earned fuel result completion usable (inr (from, outcome, played)) e =
      let good = Played-Good fuel result from outcome usable played in
      let (initial, ran, own) = played in
      subst (λ r. Earned r completion) (sym own)
        (summary-Earned outcome from completion initial good (sym (ap (λ r. r.completion) own) ∙ e))

  -- A completion that a session reports is the one that the game gives for a state reached from
  -- its initial one by exactly the accepted actions that the result counts.
  pub run-Earned :
      (fuel : ℕ) (game : Option String) (result : SessionResult G) (completion : G.Completion)
      → IsUsable plan.limits
      → run agents plan fuel game ≡ some result
      → result.completion ≡ some completion
      → Earned result completion
  run-Earned fuel game result completion usable h e =
      Course-Earned fuel result completion usable (run-Course agents plan fuel game result h) e

  lifecycle-Told :
      (from : G.State) (calls : List (Call G))
      → all is_lifecycle_call calls ≡ true
      → All (Told from) calls
  lifecycle-Told from [] h = tt
  lifecycle-Told from (create role ∷ calls) h = (tt, lifecycle-Told from calls h)
  lifecycle-Told from (shutdown role ∷ calls) h = (tt, lifecycle-Told from calls h)
  lifecycle-Told from (start role seen ∷ calls) h = absurd (ground arith)
  lifecycle-Told from (respond role affordances ∷ calls) h = absurd (ground arith)
  lifecycle-Told from (observe_transition role actor act seen ∷ calls) h = absurd (ground arith)
  lifecycle-Told from (observe_message role sender text ∷ calls) h = absurd (ground arith)
  lifecycle-Told from (finish role completion ∷ calls) h = absurd (ground arith)

  summary-Told :
      (outcome : Outcome G (SessionOutcome G)) (from : G.State)
      → Good from outcome
      → All (Told from) (shut_down agents plan (summary agents plan outcome)).run.calls
  unfolding shutdown_agents record_failure
  summary-Told (ok outcome r) from (s, h, truth) = (tt, (tt, h.1))
  summary-Told (fails failure r) from (s, h) = (tt, (tt, h.1))

  inr_inj : {s t : G.State} → ◌≡◌ {A = String ⊎ G.State} (inr s) (inr t) → s ≡ t
  inr_inj h = cc

  Course-Told :
      (fuel : ℕ) (result : SessionResult G) (from : G.State)
      → IsUsable plan.limits
      → G.initial_state plan.context ≡ inr from
      → Course agents plan fuel result
      → All (Told from) result.run.calls
  Course-Told fuel result from usable initial (inl unplayed) =
      lifecycle-Told from result.run.calls unplayed.unspoken
  Course-Told fuel result from usable initial (inr (begin, outcome, (first, ran, own))) =
      let good = Played-Good fuel result begin outcome usable (first, ran, own) in
      let same : begin ≡ from = inr_inj (sym first ∙ initial) in
      subst (λ s. All (Told s) result.run.calls) same
        (subst (λ r. All (Told begin) r.run.calls) (sym own) (summary-Told outcome begin good))

  -- Each observation that an agent is given is its own role's, of a state that the game reaches from
  -- its initial one; with a transition to that state comes an action, and the role that took it,
  -- that led there from such a state. The actions offered and the completion are those of such a
  -- state, and each message has the other role as its sender.
  pub run-Told :
      (fuel : ℕ) (game : Option String) (result : SessionResult G) (from : G.State)
      → IsUsable plan.limits
      → G.initial_state plan.context ≡ inr from
      → run agents plan fuel game ≡ some result
      → All (Told from) result.run.calls
  run-Told fuel game result from usable initial h =
      Course-Told fuel result from usable initial (run-Course agents plan fuel game result h)
