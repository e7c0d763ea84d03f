-- ===== src/Runtime/SessionLog.antt =====
-- rust-server/src/session_log.rs: the bounded log of one session.
-- The queue is `tokio`'s: whether it takes an entry is an argument of each call. The byte counter
-- is a `usize` of 64 bits.
pub mod Interleaved
use Prim.Native.String.{len}
use parlando.Common.{
  ℕ, ◌+◌, ◌-◌, ◌*◌, ◌%◌, ◌^◌, Bool, true, false, ◌&&◌, List, [], ◌∷◌, ◌++◌, Option, none, some,
  String, ltb, leb, if◌then◌else◌,
}
use parlando.Runtime.Role.{PlayerRole}

pub data SessionLogError : Type 0 where
  entry_too_large session_limit_exceeded queue_full closed : SessionLogError

pub data SessionLogSource : Type 0 where
  from_game : SessionLogSource
  from_agent : ℕ → PlayerRole → SessionLogSource

pub record PendingSessionLog : Type 0 where
  pub source : SessionLogSource
  pub text : String

-- What `try_send` answers.
pub data TrySend : Type 0 where
  sent full disconnected : TrySend

-- The sink that all handles of a session share. `queue` is the entries it took, `live` whether
-- there is a queue at all.
pub record SessionLoggerInner : Type 0 where
  pub live : Bool
  pub queue : List PendingSessionLog
  pub accepted_bytes : ℕ

pub data LogResult : Type 0 where
  ok : LogResult
  err : SessionLogError → LogResult

abbrev pub max_session_log_entry_bytes : ℕ
max_session_log_entry_bytes = 64 * 1024

abbrev pub max_session_log_bytes : ℕ
max_session_log_bytes = 8 * 1024 * 1024

abbrev pub usize_mod : ℕ
usize_mod = 2 ^ 64

-- The `fetch_update` of `log`: `checked_add`, and the limit.
unfoldable pub reserve : ℕ → ℕ → Option ℕ
reserve current bytes =
    if ltb (current + bytes) usize_mod && leb (current + bytes) max_session_log_bytes
    then some (current + bytes)
    else none

-- `fetch_sub` wraps.
unfoldable pub refund : ℕ → ℕ → ℕ
refund current bytes = (current + usize_mod - bytes) % usize_mod

unfoldable pub headless : SessionLoggerInner
headless = record { live = false; queue = []; accepted_bytes = 0 }

-- `try_send` and what follows it, once `next` bytes are reserved.
unfoldable pub send_entry :
    SessionLoggerInner → PendingSessionLog → ℕ → TrySend → SessionLoggerInner × LogResult
unfolding refund
send_entry inner entry next sent =
    (record inner { queue = inner.queue ++ entry ∷ []; accepted_bytes = next }, ok)
send_entry inner entry next full =
    (record inner { accepted_bytes = refund next (len entry.text) }, err queue_full)
send_entry inner entry next disconnected =
    (record inner { accepted_bytes = refund next (len entry.text) }, err closed)

-- `log` on a handle with the given source, when no other handle writes at the same time.
unfoldable pub log :
    SessionLoggerInner → SessionLogSource → String → TrySend → SessionLoggerInner × LogResult
unfolding reserve send_entry
log inner source text answer =
    if ltb max_session_log_entry_bytes (len text)
    then (inner, err entry_too_large)
    else elim (reserve inner.accepted_bytes (len text)) [
      | none ↦ (inner, err session_limit_exceeded)
      | some next ↦
          if inner.live
          then send_entry inner (record { source = source; text = text }) next answer
          else (record inner { accepted_bytes = next }, ok)
    ]
