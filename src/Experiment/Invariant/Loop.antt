-- ===== src/Experiment/Invariant/Loop.antt =====
-- agent_experiment.rs: a whole session keeps an invariant, and takes no more passes than decisions.
use parlando.Common.{ℕ, zero, suc, ◌<◌, ◌≡◌, refl, Option, none, some, String, inl, inr, ◌⊎◌, List}
use parlando.Runtime.Role.{PlayerRole}
use parlando.Experiment.Schedule.{AgentSchedule}
use parlando.Experiment.Model.{
  Game, SessionPlan, Call, Agents, Run, SessionOutcome, TraceEntry, TrajectoryStep,
}
use parlando.Experiment.Calls.{Outcome, ok, fails, called, start_agents, finish_agents}
use parlando.Experiment.Decision.{Pass, exits, continues, count_decision, count_message, pass}
use parlando.Experiment.Invariant.{
  Ensures, Fits, noted, IsUnder, IsInvariant, Somewhere, Keeps, bind-Keeps, finish_agents-Keeps,
}
use parlando.Experiment.Invariant.{start_agents-Keeps}
use parlando.Experiment.Invariant.Decision.{Sound, Reported, pass-Sound}
use parlando.Experiment.Runner.{resume, drive_loop, drive_schedule, play, started, drive_session}

module _ {G : Game} (agents : Agents G) (plan : SessionPlan G) where
  module _ (P : G.State → ℕ → ℕ → Run G → Type 0) (I : IsInvariant plan P)
      (decides : (s : G.State) (r : Run G)
        → r.decisions < plan.limits.decisions
        → IsUnder plan r
        → P s 0 0 r
        → P s 1 1 (count_decision r)) where
    -- Of a result, if there is one.
    abbrev pub Concludes : Option (Outcome G (SessionOutcome G)) → Type 0
    Concludes none = Unit
    Concludes (some outcome) = Ensures (Somewhere plan P I) (Reported plan P I agents) outcome

    resume-Concludes :
        {Memory : Type 0}
        (again : G.State → PlayerRole → Memory → Run G → Option (Outcome G (SessionOutcome G)))
        (o : Outcome G (Pass G Memory))
        → Ensures (Somewhere plan P I) (Sound plan P I agents) o
        → ((s : G.State) (role : PlayerRole) (memory : Memory) (r : Run G)
            → P s 0 0 r
            → IsUnder plan r
            → Concludes (again s role memory r))
        → Concludes (resume agents plan again o)
    resume-Concludes again (fails failure r) h k = h
    resume-Concludes again (ok (exits outcome) r) h k = h
    resume-Concludes again (ok (continues s role memory) r) h k = k s role memory r h.0 h.1

    pub drive_loop-Concludes :
        (schedule : AgentSchedule G.Action) (fuel : ℕ) (s : G.State) (role : PlayerRole)
        (memory : schedule.Memory) (r : Run G)
        → P s 0 0 r
        → IsUnder plan r
        → Concludes (drive_loop agents plan schedule fuel s role memory r)
    unfolding drive_loop
    drive_loop-Concludes schedule zero s role memory r h u = tt
    drive_loop-Concludes schedule (suc fuel) s role memory r h u =
        resume-Concludes (drive_loop agents plan schedule fuel)
          (pass agents plan schedule s role memory r)
          (pass-Sound plan P I agents schedule s role memory r (λ more. decides s r more u h) h)
          (drive_loop-Concludes schedule fuel)

    drive_schedule-Concludes :
        (choice : String ⊎ AgentSchedule G.Action) (fuel : ℕ) (s : G.State) (r : Run G)
        → P s 0 0 r
        → IsUnder plan r
        → Concludes (drive_schedule agents plan choice fuel s r)
    drive_schedule-Concludes (inl error) fuel s r h u = (s, h)
    drive_schedule-Concludes (inr schedule) fuel s r h u =
        drive_loop-Concludes schedule fuel s _ _ r h u

    play-Concludes :
        (over : Option G.Completion) (fuel : ℕ) (s : G.State) (r : Run G)
        → G.completion s ≡ over
        → P s 0 0 r
        → IsUnder plan r
        → Concludes (play agents plan over fuel s r)
    play-Concludes (some completion) fuel s r own h u =
        bind-Keeps plan P I (Reported plan P I agents) s 0 0 (finish_agents agents completion r) _
          (finish_agents-Keeps plan P I agents s 0 0 r completion own h)
          (λ _ r' h'. (s, h', (refl, own)))
    play-Concludes none fuel s r own h u = drive_schedule-Concludes plan.schedule fuel s r h u

    -- The invariant while no decision is under way and no counter is at its limit.
    abbrev Idle : G.State → ℕ → ℕ → Run G → Type 0
    Idle s zero zero r = P s 0 0 r × IsUnder plan r
    Idle s (suc x) y r = ⊥
    Idle s zero (suc y) r = ⊥

    Idle-call :
        (s : G.State) (x y : ℕ) (r : Run G) (c : Call G)
        → Fits I.Reached s c
        → Idle s x y r
        → Idle s x y (called c r)
    Idle-call s zero zero r c f (h, u) =
        (I.call s 0 0 r c f h, record { accepts = u.accepts; sends = u.sends; rejects = u.rejects })
    Idle-call s (suc x) y r c f h = h
    Idle-call s zero (suc y) r c f h = h

    Idle-note :
        (s : G.State) (x y : ℕ) (r : Run G) (t : Option (List (TraceEntry G)))
        (steps : List (TrajectoryStep G))
        → Idle s x y r
        → Idle s x y (noted t steps r)
    Idle-note s zero zero r t steps (h, u) = (
      I.note s 0 0 r t steps h,
      record { accepts = u.accepts; sends = u.sends; rejects = u.rejects },
    )
    Idle-note s (suc x) y r t steps h = h
    Idle-note s zero (suc y) r t steps h = h

    Idle-weaken : (s : G.State) (x y : ℕ) (r : Run G) → Idle s x y r → Idle s 0 0 r
    Idle-weaken s zero zero r h = h
    Idle-weaken s (suc x) y r h = absurd h
    Idle-weaken s zero (suc y) r h = absurd h

    Idle-sends : (s : G.State) (x : ℕ) (r : Run G) → Idle s x 1 r → Idle s x 0 (count_message r)
    Idle-sends s zero r h = absurd h
    Idle-sends s (suc x) r h = absurd h

    Idle-reach : (s : G.State) (x y : ℕ) (r : Run G) → Idle s x y r → I.Reached s
    Idle-reach s zero zero r h = I.reach s 0 0 r h.0
    Idle-reach s (suc x) y r h = absurd h
    Idle-reach s zero (suc y) r h = absurd h

    Idle-IsInvariant : IsInvariant plan Idle
    Idle-IsInvariant = record {
      Reached = I.Reached;
      reach = Idle-reach;
      call = Idle-call;
      note = Idle-note;
      accepts = λ s next act role y r legal h. absurd h;
      rejects = λ s y r h. absurd h;
      sends = Idle-sends;
      weaken = Idle-weaken;
    }

    started-Concludes :
        (o : Outcome G (Unit {0})) (fuel : ℕ) (s : G.State)
        → Keeps plan Idle Idle-IsInvariant s 0 0 o
        → Concludes (started agents plan o (play agents plan (G.completion s) fuel s))
    started-Concludes (fails failure r) fuel s (s', (h, u)) = (s', h)
    started-Concludes (ok _ r) fuel s (h, u) = play-Concludes (G.completion s) fuel s r refl h u

    pub drive_session-Concludes :
        (fuel : ℕ) (s : G.State) (r : Run G)
        → P s 0 0 r
        → IsUnder plan r
        → Concludes (drive_session agents plan fuel s r)
    unfolding drive_session
    drive_session-Concludes fuel s r h u =
        started-Concludes (start_agents agents s r) fuel s
          (start_agents-Keeps plan Idle Idle-IsInvariant agents s 0 0 r (h, u))
