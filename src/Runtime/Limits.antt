-- ===== src/Runtime/Limits.antt =====
-- rust-server/src/app.rs: the sliding window on participant creation.
-- Timestamps are `i64` seconds; here they and the window are natural numbers, and
-- `timestamp > now - window` is written `now < timestamp + window`.
use parlando.Common.{
  ℕ, ◌↔◌, ◌+◌, ◌≤◌, ◌<◌, ◌≡◌, refl, Bool, true, false, ◌&&◌, List, [], ◌∷◌, ◌++◌, length, retain,
  ltb, leb, length-append, length-retain-le, arith, if◌then◌else◌, All, Bool-cases, inl, inr,
}

pub record ParticipantCreationRate : Type 0 where
  pub global : List ℕ
  pub max_attempts : ℕ
  pub window_seconds : ℕ

abbrev prune : ParticipantCreationRate → ℕ → List ℕ
prune rate now = retain (λ timestamp. ltb now (timestamp + rate.window_seconds)) rate.global

-- `ParticipantCreationRate::record`.
unfoldable pub record_attempt : ParticipantCreationRate → ℕ → ParticipantCreationRate × Bool
record_attempt rate now =
    let kept = prune rate now in
    if leb rate.max_attempts (length kept)
    then (record rate { global = kept }, false)
    else (record rate { global = kept ++ now ∷ [] }, true)

-- The times of the attempts that a row of calls lets pass.
unfoldable pub accepted : ParticipantCreationRate → List ℕ → List ℕ
accepted rate [] = []
accepted rate (now ∷ later) =
    let (next, passed) = record_attempt rate now in
    let rest = accepted next later in if passed then now ∷ rest else rest

-- The clock does not run backwards.
abbrev pub IsSorted : List ℕ → Type 0
IsSorted [] = Unit
IsSorted (x ∷ xs) = All (λ y. x ≤ y) xs × IsSorted xs

-- How many of the times lie in the window that ends at `n`.
abbrev pub in_window : ℕ → ℕ → List ℕ → ℕ
in_window w n times = length (retain (λ t. ltb n (t + w) && leb t n) times)

recent : ℕ → ℕ → List ℕ → ℕ
recent w n times = length (retain (λ t. ltb n (t + w)) times)

recent-prune :
    (w n now : ℕ) (times : List ℕ)
    → now ≤ n
    → recent w n (retain (λ t. ltb now (t + w)) times) ≡ recent w n times
unfolding recent
recent-prune w n now [] h = refl
recent-prune w n now (t ∷ times) h = ground (arith, recent-prune w n now times h)

recent-append :
    (w n now : ℕ) (times : List ℕ)
    → recent w n (times ++ now ∷ []) ≡ recent w n times + (if ltb n (now + w) then 1 else 0)
unfolding recent
recent-append w n now [] = ground arith
recent-append w n now (t ∷ times) = ground (arith, recent-append w n now times)

accepted_later :
    (rate : ParticipantCreationRate) (n : ℕ) (times : List ℕ)
    → All (λ t. n < t) times
    → in_window rate.window_seconds n (accepted rate times) ≡ 0
unfolding accepted record_attempt
accepted_later rate n [] h = refl
accepted_later rate n (t ∷ times) h =
    ground (arith, accepted_later (record_attempt rate t).0 n times h.1, h.0)

record_attempt_capped :
    (rate : ParticipantCreationRate) (now : ℕ)
    → length rate.global ≤ rate.max_attempts
    → length (record_attempt rate now).0.global ≤ (record_attempt rate now).0.max_attempts
unfolding record_attempt
record_attempt_capped rate now c = ground (
  arith,
  length-retain-le (λ t. ltb now (t + rate.window_seconds)) rate.global,
  length-append (prune rate now) (now ∷ []),
)

above : (n now : ℕ) (later : List ℕ) → n < now → All (λ y. now ≤ y) later → All (λ t. n < t) later
above n now [] h k = tt
above n now (y ∷ later) h k = (omega arith, above n now later h k.1)

window_room :
    (rate : ParticipantCreationRate) (n : ℕ) (times : List ℕ)
    → IsSorted times
    → length rate.global ≤ rate.max_attempts
    → in_window rate.window_seconds n (accepted rate times)
        + recent rate.window_seconds n rate.global
      ≤ rate.max_attempts
unfolding accepted record_attempt recent
window_room rate n [] o c =
    unfold recent in
    omega (arith, length-retain-le (λ t. ltb n (t + rate.window_seconds)) rate.global)
window_room rate n (now ∷ later) o c = elim (Bool-cases (leb now n)) [
  | inl past ↦
      unfold record_attempt in
      ground (
        arith,
        window_room (record_attempt rate now).0 n later o.1 (record_attempt_capped rate now c),
        recent-prune rate.window_seconds n now rate.global,
        recent-append rate.window_seconds n now (prune rate now),
      )
  | inr future ↦
      unfold recent in
      ground (
        arith,
        accepted_later rate n (now ∷ later) (ground arith, above n now later (ground arith) o.0),
        length-retain-le (λ t. ltb n (t + rate.window_seconds)) rate.global,
      )
]

-- For calls from an empty start whose times do not go back, no window of the configured width holds
-- more accepted attempts than allowed.
pub creation_rate_bounded :
    (rate : ParticipantCreationRate) (n : ℕ) (times : List ℕ)
    → rate.global ≡ []
    → IsSorted times
    → in_window rate.window_seconds n (accepted rate times) ≤ rate.max_attempts
creation_rate_bounded rate n times e o =
    omega (arith, window_room rate n times o (rw e (omega arith)))

-- An attempt is refused exactly when the window that ends now is full.
pub record_attempt_refused :
    (rate : ParticipantCreationRate) (now : ℕ)
    → ((record_attempt rate now).1 ≡ false)
      ↔ (rate.max_attempts ≤ length (retain (λ t. ltb now (t + rate.window_seconds)) rate.global))
unfolding record_attempt
record_attempt_refused rate now = ground arith
