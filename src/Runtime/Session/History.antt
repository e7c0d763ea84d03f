-- ===== src/Runtime/Session/History.antt =====
-- app.rs: the calls that hold a session's transition lock, and the removals by the sweep. No other
-- such call runs between the read and the write of one, but the sweep, which holds no lock, may take
-- the session away there. An expiry holds no lock either, and is no step here.
pub mod Final
use parlando.Common.{
  ◌≡◌, Bool, true, false, List, [], ◌∷◌, Option, none, some, String, lookup, insert, lookup-insert,
  remove, lookup-remove, eq_String, ◌==◌, ==_iff, Bool-cases, Option-cases, inl, inr, ap, subst,
  sym, ◌∙◌, arith, refl, if◌then◌else◌,
}
use parlando.Runtime.Role.{PlayerRole}
use parlando.Runtime.Session.Model.{
  Game, SessionEnd, forming, ended, LiveSession, Memory, ExperimentConfig, is_ended,
}
use parlando.Runtime.Session.Ending.{
  Ending, failed, refused, done, on_session, close, settle, abandon_session, after_departure,
  shut_log, abandoned_session_end,
}
use parlando.Runtime.Session.Outcomes.{forming_of}
use parlando.Runtime.Session.Progress.{
  Times, DurableEvent, begin, begun, may_start, maybe_start_game, submit, submit_action,
}
use parlando.Runtime.Session.Turns.{submit_answer, Mode-cases}

-- With the answers of the store and the clock; `gone` says that the sweep removes the session while
-- the store is awaited.
pub data Operation (G : Game) : Type 0 where
  start : (gone : Bool) → Option Bool → String → Times → Operation G
  act :
      (gone : Bool)
      → (List (DurableEvent G.Value) → Option (SessionEnd G.Value) → Bool)
      → Bool
      → String
      → PlayerRole
      → G.Action
      → Times
      → Operation G
  leave : (gone : Bool) → Option Bool → (session participant reason now : String) → Operation G
  sweep : String → Operation G

-- `sessions.remove`, of `cleanup_transient_rooms`.
abbrev pub remove_session : {G : Game} → Memory G → String → Memory G
remove_session memory id = record memory { sessions = remove id memory.sessions }

abbrev pub rest : {G : Game} → Bool → Memory G → String → Memory G
rest gone memory id = if gone then remove_session memory id else memory

unfoldable pub run : {G : Game} → ExperimentConfig → Operation G → Memory G → Memory G
unfolding maybe_start_game submit_action abandon_session
run config (start gone started id times) memory =
    maybe_start_game config started memory (rest gone memory id) id times
run config (act gone commit pair id role action times) memory =
    (submit_action config commit pair memory (rest gone memory id) id role action times).0
run config (leave gone committed id actor reason now) memory =
    (abandon_session config committed memory (rest gone memory id) id actor reason now).0
run config (sweep id) memory = remove_session memory id

unfoldable pub run_all : {G : Game} → ExperimentConfig → List (Operation G) → Memory G → Memory G
unfolding run
run_all config [] memory = memory
run_all config (o ∷ os) memory = run_all config os (run config o memory)
