-- ===== src/Runtime/Session/History/Final.antt =====
-- app.rs: an ending outlasts the calls under the transition lock.
use parlando.Common.{
  ◌≡◌, Bool, true, false, List, [], ◌∷◌, Option, none, some, String, lookup, insert, lookup-insert,
  remove, lookup-remove, eq_String, ◌==◌, ==_iff, Bool-cases, Option-cases, inl, inr, ap, subst,
  sym, ◌∙◌, arith, refl,
}
use parlando.Runtime.Role.{PlayerRole}
use parlando.Runtime.Session.Model.{
  Game, SessionEnd, forming, ended, LiveSession, Memory, ExperimentConfig, is_ended,
}
use parlando.Runtime.Session.Ending.{
  Ending, failed, refused, done, on_session, close, settle, abandon_session, after_departure,
  shut_log, abandoned_session_end,
}
use parlando.Runtime.Session.Outcomes.{forming_of}
use parlando.Runtime.Session.Progress.{
  Times, DurableEvent, begin, begun, may_start, maybe_start_game, submit, submit_action,
}
use parlando.Runtime.Session.Turns.{submit_answer, Mode-cases}
use parlando.Runtime.Session.History.{
  Operation, start, act, leave, sweep, remove_session, rest, run, run_all,
}

some_inj : {A : Type 0} {x y : A} → some x ≡ some y → x ≡ y
some_inj h = cc

module _ {G : Game} where
  abbrev pub EndsSo : Option (LiveSession G) → SessionEnd G.Value → Type 0
  EndsSo none end = Unit
  EndsSo (some s) end = s.lifecycle ≡ ended end

  -- The session is gone, or has ended so.
  abbrev pub IsFinal : Memory G → String → SessionEnd G.Value → Type 0
  IsFinal memory id end = EndsSo (lookup id memory.sessions) end

  -- What is there to be written to is what was read.
  abbrev pub IsKept : Memory G → Memory G → String → Type 0
  IsKept seen memory id =
      (s : LiveSession G) → lookup id memory.sessions ≡ some s → lookup id seen.sessions ≡ some s

  -- A write that leaves the lifecycle of an ended session leaves its ending.
  insert-IsFinal :
      (memory : Memory G) (id : String) (next s : LiveSession G) (j : String)
      (end : SessionEnd G.Value)
      → lookup id memory.sessions ≡ some s
      → (s.lifecycle ≡ ended end → next.lifecycle ≡ ended end)
      → IsFinal memory j end
      → EndsSo (lookup j (insert id next memory.sessions)) end
  insert-IsFinal memory id next s j end here keeps h = elim (Bool-cases (id == j)) [
    | inl y ↦
        let found : lookup j memory.sessions ≡ some s =
          subst (λ i. lookup i memory.sessions ≡ some s) ((==_iff id j).0 y) here in
        rw (lookup-insert id j next memory.sessions, y) (keeps (subst (λ o. EndsSo o end) found h))
    | inr n ↦ rw (lookup-insert id j next memory.sessions, n) h
  ]

  on_session-IsFinal :
      (memory : Memory G) (id : String) (change : LiveSession G → LiveSession G) (j : String)
      (end : SessionEnd G.Value)
      → ((s : LiveSession G)
          → lookup id memory.sessions ≡ some s
          → s.lifecycle ≡ ended end
          → (change s).lifecycle ≡ ended end)
      → IsFinal memory j end
      → IsFinal (on_session memory id change) j end
  on_session-IsFinal memory id change j end keeps h =
      elim (Option-cases (lookup id memory.sessions)) [
        | inl n ↦ rw (on_session, n) h
        | inr (s, e) ↦
            rw (on_session, e) (insert-IsFinal memory id (change s) s j end e (keeps s e) h)
      ]

  open-ended :
      (seen memory : Memory G) (id : String) (session s : LiveSession G) (end : SessionEnd G.Value)
      → IsKept seen memory id
      → lookup id seen.sessions ≡ some session
      → is_ended session.lifecycle ≡ false
      → lookup id memory.sessions ≡ some s
      → s.lifecycle ≡ ended end
      → ⊥
  open-ended seen memory id session s end kept e n f over =
      let same : session ≡ s = some_inj (sym e ∙ kept s f) in
      let closed : session.lifecycle ≡ ended end =
        ap (λ (x : LiveSession G). x.lifecycle) same ∙ over in
      let yes_ended : is_ended session.lifecycle ≡ true = ap is_ended closed in
      ground (arith, n, yes_ended)

  settle-IsFinal :
      (committed : Option Bool) (made : Option (SessionEnd G.Value)) (seen memory : Memory G)
      (id now j : String) (end : SessionEnd G.Value) (session : LiveSession G)
      → IsKept seen memory id
      → lookup id seen.sessions ≡ some session
      → is_ended session.lifecycle ≡ false
      → IsFinal memory j end
      → IsFinal (settle committed made memory id now).0 j end
  settle-IsFinal committed none seen memory id now j end session kept e n h = h
  settle-IsFinal none (some made) seen memory id now j end session kept e n h = h
  settle-IsFinal (some false) (some made) seen memory id now j end session kept e n h = h
  settle-IsFinal (some true) (some made) seen memory id now j end session kept e n h =
      on_session-IsFinal memory id (close made now) j end
        (λ s f over. absurd (open-ended seen memory id session s end kept e n f over)) h

  after_departure-IsFinal :
      (config : ExperimentConfig) (id : String) (memory : Memory G) (ending : Ending) (j : String)
      (end : SessionEnd G.Value)
      → IsFinal memory j end
      → IsFinal (after_departure config id (memory, ending)).0 j end
  unfolding after_departure shut_log
  after_departure-IsFinal config id memory done j end h = elim (Mode-cases config.agents_mode) [
    | inl human ↦ rw human (on_session-IsFinal memory id shut_log j end (λ s f over. over) h)
    | inr agent ↦ rw agent h
  ]
  after_departure-IsFinal config id memory failed j end h = h
  after_departure-IsFinal config id memory refused j end h = h

  abandon_session-IsFinal :
      (config : ExperimentConfig) (committed : Option Bool) (seen memory : Memory G)
      (id actor reason now j : String) (end : SessionEnd G.Value)
      → IsKept seen memory id
      → IsFinal memory j end
      → IsFinal (abandon_session config committed seen memory id actor reason now).0 j end
  unfolding abandon_session
  abandon_session-IsFinal config committed seen memory id actor reason now j end kept h =
      elim (Option-cases (lookup id seen.sessions)) [
        | inl n ↦ rw (abandon_session, n) h
        | inr (session, e) ↦ elim (Bool-cases (is_ended session.lifecycle)) [
          | inl y ↦ rw (abandon_session, e, y) h
          | inr n ↦
              let made = abandoned_session_end config session actor reason in
              let settled = settle committed made memory id now in
              rw (abandon_session, e, n)
                (after_departure-IsFinal config id settled.0 settled.1 j end
                  (settle-IsFinal committed made seen memory id now j end session kept e n h))
        ]
      ]

  begun-IsFinal :
      (started : Option Bool) (seen memory : Memory G) (id : String) (times : Times) (j : String)
      (end : SessionEnd G.Value) (session : LiveSession G)
      → IsKept seen memory id
      → lookup id seen.sessions ≡ some session
      → is_ended session.lifecycle ≡ false
      → IsFinal memory j end
      → IsFinal (begun started memory id times) j end
  begun-IsFinal none seen memory id times j end session kept e n h = h
  begun-IsFinal (some false) seen memory id times j end session kept e n h = h
  begun-IsFinal (some true) seen memory id times j end session kept e n h =
      on_session-IsFinal memory id (λ s. begin s times) j end
        (λ s f over. absurd (open-ended seen memory id session s end kept e n f over)) h

  may_start-open :
      (config : ExperimentConfig) (session : LiveSession G)
      → may_start config session ≡ true
      → is_ended session.lifecycle ≡ false
  unfolding may_start
  may_start-open config session h =
      let fresh : session.lifecycle ≡ forming = forming_of session.lifecycle (ground arith) in
      ap is_ended fresh

  maybe_start_game-IsFinal :
      (config : ExperimentConfig) (started : Option Bool) (seen memory : Memory G) (id : String)
      (times : Times) (j : String) (end : SessionEnd G.Value)
      → IsKept seen memory id
      → IsFinal memory j end
      → IsFinal (maybe_start_game config started seen memory id times) j end
  unfolding maybe_start_game
  maybe_start_game-IsFinal config started seen memory id times j end kept h =
      elim (Option-cases (lookup id seen.sessions)) [
        | inl n ↦ rw (maybe_start_game, n) h
        | inr (session, e) ↦ elim (Bool-cases (may_start config session)) [
          | inr n ↦ rw (maybe_start_game, e, n) h
          | inl y ↦
              rw (maybe_start_game, e, y)
                (begun-IsFinal started seen memory id times j end session kept e
                  (may_start-open config session y) h)
        ]
      ]

  submit-ended :
      (config : ExperimentConfig)
      (commit : List (DurableEvent G.Value) → Option (SessionEnd G.Value) → Bool) (pair : Bool)
      (session : LiveSession G) (role : PlayerRole) (action : G.Action) (times : Times)
      (end : SessionEnd G.Value)
      → session.lifecycle ≡ ended end
      → (submit config commit pair session session role action times).0.lifecycle ≡ ended end
  submit-ended config commit pair session role action times end over =
      elim (submit_answer config commit pair session session role action times) [
        | inl (e, same) ↦ ap (λ x. x.0.lifecycle) same ∙ over
        | inr (runs, _, _, _) ↦ absurd (cc (runs, over))
      ]

  submit_action-IsFinal :
      (config : ExperimentConfig)
      (commit : List (DurableEvent G.Value) → Option (SessionEnd G.Value) → Bool) (pair : Bool)
      (seen memory : Memory G) (id : String) (role : PlayerRole) (action : G.Action) (times : Times)
      (j : String) (end : SessionEnd G.Value)
      → IsKept seen memory id
      → IsFinal memory j end
      → IsFinal (submit_action config commit pair seen memory id role action times).0 j end
  unfolding submit_action
  submit_action-IsFinal config commit pair seen memory id role action times j end kept h =
      elim (Option-cases (lookup id seen.sessions)) [
        | inl n ↦ rw (submit_action, n) h
        | inr (session, e) ↦ elim (Option-cases (lookup id memory.sessions)) [
          | inl n ↦ rw (submit_action, e, n) h
          | inr (current, f) ↦
              let same : current ≡ session = some_inj (sym (kept current f) ∙ e) in
              rw (submit_action, e, f, same)
                (insert-IsFinal memory id
                  (submit config commit pair session session role action times).0 session j end
                  (subst (λ x. lookup id memory.sessions ≡ some x) same f)
                  (submit-ended config commit pair session role action times end) h)
        ]
      ]

  remove_session-IsFinal :
      (memory : Memory G) (id j : String) (end : SessionEnd G.Value)
      → IsFinal memory j end
      → IsFinal (remove_session memory id) j end
  remove_session-IsFinal memory id j end h = elim (Bool-cases (id == j)) [
    | inl y ↦ rw (lookup-remove id j memory.sessions, y) tt
    | inr n ↦ rw (lookup-remove id j memory.sessions, n) h
  ]

  rest-IsKept :
      (gone : Bool) (memory : Memory G) (id : String) → IsKept memory (rest gone memory id) id
  rest-IsKept false memory id s f = f
  rest-IsKept true memory id s f =
      let none_left : lookup id (remove id memory.sessions) ≡ none =
        rw (lookup-remove id id memory.sessions, (==_iff id id).1 refl) refl in
      absurd (ground (arith, none_left, f))

  rest-IsFinal :
      (gone : Bool) (memory : Memory G) (id j : String) (end : SessionEnd G.Value)
      → IsFinal memory j end
      → IsFinal (rest gone memory id) j end
  rest-IsFinal false memory id j end h = h
  rest-IsFinal true memory id j end h = remove_session-IsFinal memory id j end h

  run-IsFinal :
      (config : ExperimentConfig) (o : Operation G) (memory : Memory G) (j : String)
      (end : SessionEnd G.Value)
      → IsFinal memory j end
      → IsFinal (run config o memory) j end
  unfolding run
  run-IsFinal config (start gone started id times) memory j end h =
      maybe_start_game-IsFinal config started memory (rest gone memory id) id times j end
        (rest-IsKept gone memory id) (rest-IsFinal gone memory id j end h)
  run-IsFinal config (act gone commit pair id role action times) memory j end h =
      submit_action-IsFinal config commit pair memory (rest gone memory id) id role action times j
        end (rest-IsKept gone memory id) (rest-IsFinal gone memory id j end h)
  run-IsFinal config (leave gone committed id actor reason now) memory j end h =
      abandon_session-IsFinal config committed memory (rest gone memory id) id actor reason now j
        end (rest-IsKept gone memory id) (rest-IsFinal gone memory id j end h)
  run-IsFinal config (sweep id) memory j end h = remove_session-IsFinal memory id j end h

  -- Among the calls that hold the session's transition lock, and the removals of the sweep, an
  -- ending is final: whatever starts, actions, departures and removals follow, and whatever the store
  -- answers, a session that has ended so is found with the same ending, or is gone for good.
  pub run_all-IsFinal :
      (config : ExperimentConfig) (os : List (Operation G)) (memory : Memory G) (id : String)
      (end : SessionEnd G.Value)
      → IsFinal memory id end
      → IsFinal (run_all config os memory) id end
  unfolding run_all
  run_all-IsFinal config [] memory id end h = h
  run_all-IsFinal config (o ∷ os) memory id end h =
      run_all-IsFinal config os (run config o memory) id end (run-IsFinal config o memory id end h)
