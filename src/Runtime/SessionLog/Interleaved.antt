-- ===== src/Runtime/SessionLog/Interleaved.antt =====
-- session_log.rs: handles that log at the same time. Each atomic access of `log` is a step.
use Prim.Native.String.{len}
use parlando.Common.{
  ℕ, ◌+◌, ◌-◌, ◌≤◌, ◌≡◌, refl, true, List, [], ◌∷◌, ◌++◌, some, String, arith, Bool-cases, inl, inr,
  Option-cases, ltb, ap,
}
use parlando.Runtime.SessionLog.{
  SessionLogSource, PendingSessionLog, SessionLoggerInner, TrySend, sent, full, disconnected,
  reserve, refund, log, send_entry, max_session_log_entry_bytes, max_session_log_bytes,
}

-- The shared counter, what the queue has taken (or the headless sink has discarded), and the
-- calls under way: those that have reserved their bytes, and those whose send has failed.
pub record Shared : Type 0 where
  pub accepted_bytes : ℕ
  pub taken : List PendingSessionLog
  pub reserved : List PendingSessionLog
  pub failed : List PendingSessionLog

abbrev pub bytes_of : List PendingSessionLog → ℕ
bytes_of [] = 0
bytes_of (e ∷ es) = len e.text + bytes_of es

bytes_of-append : (xs ys : List PendingSessionLog) → bytes_of (xs ++ ys) ≡ bytes_of xs + bytes_of ys
bytes_of-append [] ys = omega arith
bytes_of-append (x ∷ xs) ys = omega (arith, bytes_of-append xs ys)

pub data Step (s : Shared) : Shared → Type 0 where
  reserves :
      (entry : PendingSessionLog) (next : ℕ)
      → len entry.text ≤ max_session_log_entry_bytes
      → reserve s.accepted_bytes (len entry.text) ≡ some next
      → Step s (record s { accepted_bytes = next; reserved = entry ∷ s.reserved })
  sends :
      (xs ys : List PendingSessionLog) (entry : PendingSessionLog)
      → s.reserved ≡ xs ++ entry ∷ ys
      → Step s (record s { taken = s.taken ++ entry ∷ []; reserved = xs ++ ys })
  fails :
      (xs ys : List PendingSessionLog) (entry : PendingSessionLog)
      → s.reserved ≡ xs ++ entry ∷ ys
      → Step s (record s { reserved = xs ++ ys; failed = entry ∷ s.failed })
  refunds :
      (xs ys : List PendingSessionLog) (entry : PendingSessionLog)
      → s.failed ≡ xs ++ entry ∷ ys
      → Step s (record s {
        accepted_bytes = refund s.accepted_bytes (len entry.text);
        failed = xs ++ ys;
      })

pub data Reach : Shared → Type 0 where
  start : Reach (record { accepted_bytes = 0; taken = []; reserved = []; failed = [] })
  next : {s t : Shared} → Reach s → Step s t → Reach t

-- Every byte that is counted belongs to an entry that was taken or to a call under way.
pub record IsBalanced (s : Shared) : Type 0 where
  pub counted : s.accepted_bytes ≡ bytes_of s.taken + bytes_of s.reserved + bytes_of s.failed
  pub capped : s.accepted_bytes ≤ max_session_log_bytes

reserve-some :
    (current bytes next : ℕ)
    → reserve current bytes ≡ some next
    → (next ≡ current + bytes) × (next ≤ max_session_log_bytes)
unfolding reserve
reserve-some current bytes total h = ground arith

-- A refund of bytes that were counted does not wrap.
refund_exact :
    (current bytes : ℕ)
    → bytes ≤ current
    → current ≤ max_session_log_bytes
    → refund current bytes ≡ current - bytes
unfolding refund
refund_exact current bytes h c = omega arith

Step-IsBalanced : {s t : Shared} → Step s t → IsBalanced s → IsBalanced t
Step-IsBalanced {s} (reserves entry sum c e) b =
    let (total, room) = reserve-some s.accepted_bytes (len entry.text) sum e in
    record { counted = omega arith; capped = room }
Step-IsBalanced {s} (sends xs ys entry e) b = record {
  counted = omega (
    arith,
    b.counted,
    ap bytes_of e,
    bytes_of-append xs (entry ∷ ys),
    bytes_of-append xs ys,
    bytes_of-append s.taken (entry ∷ []),
  );
  capped = b.capped;
}
Step-IsBalanced {s} (fails xs ys entry e) b = record {
  counted =
      omega
        (arith, b.counted, ap bytes_of e, bytes_of-append xs (entry ∷ ys), bytes_of-append xs ys);
  capped = b.capped;
}
Step-IsBalanced {s} (refunds xs ys entry e) b =
    let split = bytes_of-append xs (entry ∷ ys) in
    let exact =
      refund_exact s.accepted_bytes (len entry.text)
        (omega (arith, b.counted, ap bytes_of e, split)) b.capped in
    record {
      counted = omega (arith, b.counted, ap bytes_of e, split, bytes_of-append xs ys, exact);
      capped = omega (arith, exact, b.capped);
    }

Reach-IsBalanced : {s : Shared} → Reach s → IsBalanced s
Reach-IsBalanced start = omega arith
Reach-IsBalanced (next r st) = Step-IsBalanced st (Reach-IsBalanced r)

-- However the handles of a session interleave, the counter is the bytes of the entries taken and
-- of the calls under way, and they are within the session's limit together.
pub log_bounded :
    (s : Shared)
    → Reach s
    → (s.accepted_bytes ≡ bytes_of s.taken + bytes_of s.reserved + bytes_of s.failed)
      × (s.accepted_bytes ≤ max_session_log_bytes)
log_bounded s r = let b = Reach-IsBalanced r in (b.counted, b.capped)

-- The sink of a live session with no call under way.
abbrev pub quiet : SessionLoggerInner → Shared
quiet inner = record {
  accepted_bytes = inner.accepted_bytes;
  taken = inner.queue;
  reserved = [];
  failed = [];
}

send_entry-Reach :
    (inner : SessionLoggerInner) (entry : PendingSessionLog) (sum : ℕ) (answer : TrySend)
    → Reach
        (record { accepted_bytes = sum; taken = inner.queue; reserved = entry ∷ []; failed = [] })
    → Reach (quiet (send_entry inner entry sum answer).0)
unfolding send_entry
send_entry-Reach inner entry sum sent r = next r (sends [] [] entry refl)
send_entry-Reach inner entry sum full r =
    next (next r (fails [] [] entry refl)) (refunds [] [] entry refl)
send_entry-Reach inner entry sum disconnected r =
    next (next r (fails [] [] entry refl)) (refunds [] [] entry refl)

-- A call that runs alone is a row of the steps: what holds of every interleaving holds of it.
pub log-Reach :
    (inner : SessionLoggerInner) (source : SessionLogSource) (text : String) (answer : TrySend)
    → inner.live ≡ true
    → Reach (quiet inner)
    → Reach (quiet (log inner source text answer).0)
unfolding log
log-Reach inner source text answer l r =
    elim (Bool-cases (ltb max_session_log_entry_bytes (len text))) [
      | inl long ↦ rw long r
      | inr short ↦ elim (Option-cases (reserve inner.accepted_bytes (len text))) [
        | inl spent ↦ rw (short, reserve, spent) r
        | inr (sum, e) ↦
            let entry : PendingSessionLog = record { source = source; text = text } in
            rw (short, reserve, e, l)
              (send_entry-Reach (record inner { live = true }) entry sum answer
                (next r (reserves entry sum (ground arith) e)))
      ]
    ]
