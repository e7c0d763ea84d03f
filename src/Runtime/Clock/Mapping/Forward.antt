-- ===== src/Runtime/Clock/Mapping/Forward.antt =====
-- clock.rs: a mapped utterance and its tokens run forward in capture time.
use parlando.Common.{
  ℕ, ◌≤◌, ◌≡◌, refl, Bool, true, false, List, [], ◌∷◌, ltb, leb, if◌then◌else◌, arith, inl, inr,
  ◌⊎◌, Bool-cases, subst,
}
use parlando.Common.Int.{ℤ, pos, negsuc}
use parlando.Runtime.Clock.{TranscriptionClock, Result, ok, err, boundary, ◌>>=◌}
use parlando.Runtime.Clock.Order.{IsOrdered}
use parlando.Runtime.Clock.Boundaries.{boundary_mono}
use parlando.Runtime.Clock.Mapping.{
  TranscriptToken, FinalTranscriptUtterance, int_eq, checked, map_token, map_tokens, map_utterance,
}

abbrev pub int_le : ℤ → ℤ → Bool
int_le (pos m) (pos n) = leb m n
int_le (negsuc m) (negsuc n) = leb n m
int_le (negsuc m) (pos n) = true
int_le (pos m) (negsuc n) = false

if_true {ℓ} : {A : Type ℓ} (b : Bool) (x y z : A) → b ≡ true → (if b then x else y) ≡ z → x ≡ z
if_true b x y z t h = ground (arith, t, h)

if_false {ℓ} : {A : Type ℓ} (b : Bool) (x y z : A) → b ≡ false → (if b then x else y) ≡ z → y ≡ z
if_false b x y z f h = ground (arith, f, h)

ok_inj {ℓ} : {A : Type ℓ} {a b : A} → ok a ≡ ok b → a ≡ b
ok_inj h = cc

bind_ok {ℓ κ} :
    {A : Type ℓ} {B : Type κ} (r : Result A) (f : A → Result B) (b : B)
    → (r >>= f) ≡ ok b
    → (a : A) × (r ≡ ok a) × (f a ≡ ok b)
bind_ok (ok a) f b h = (a, refl, h)
bind_ok (err e) f b h = cc

boundary-forward :
    (clock : TranscriptionClock) (s e : ℤ) (u v : ℕ)
    → IsOrdered clock
    → int_le s e ≡ true
    → int_eq s e ≡ false
    → boundary clock s false ≡ ok u
    → boundary clock e true ≡ ok v
    → u ≤ v
unfolding boundary
boundary-forward clock (pos s) (pos e) u v o le ne h h' =
    boundary_mono clock s e false true u v o (ground arith) h h'
boundary-forward clock (negsuc s) e u v o le ne h h' = cc
boundary-forward clock (pos s) (negsuc e) u v o le ne h h' = cc

module _ {Confidence : Type 0} where
  abbrev pub IsForward : TranscriptToken Confidence → Type 0
  IsForward token = int_le token.start_time_ms token.end_time_ms ≡ true

  map_token-IsForward :
      (clock : TranscriptionClock) (token mapped : TranscriptToken Confidence)
      → IsOrdered clock
      → IsForward token
      → map_token clock token ≡ ok mapped
      → IsForward mapped
  unfolding map_token
  map_token-IsForward clock token mapped o f h =
      let point = int_eq token.start_time_ms token.end_time_ms in
      let (u, at_start, h₁) = bind_ok (boundary clock token.start_time_ms point) _ mapped h in
      let (v, at_end, h₂) =
        bind_ok (if point then ok u else boundary clock token.end_time_ms true) _ mapped h₁ in
      subst IsForward (ok_inj h₂) (elim (Bool-cases point) [
        | inl same ↦ let w = ok_inj (if_true point _ _ _ same at_end) in ground (arith, w)
        | inr apart ↦
            let starts = subst (λ b. boundary clock token.start_time_ms b ≡ ok u) apart at_start in
            let ends = if_false point _ _ _ apart at_end in
            let le =
              boundary-forward clock token.start_time_ms token.end_time_ms u v o f apart starts
                ends in
            ground (arith, le)
      ])

  -- Each token that ran forward is mapped to one that does; there are as many of both.
  abbrev pub KeepsForward :
      List (TranscriptToken Confidence) → List (TranscriptToken Confidence) → Type 0
  KeepsForward [] [] = Unit
  KeepsForward (t ∷ ts) (m ∷ ms) =
      ((int_le t.start_time_ms t.end_time_ms ≡ false) ⊎ IsForward m) × KeepsForward ts ms
  KeepsForward [] (m ∷ ms) = ⊥
  KeepsForward (t ∷ ts) [] = ⊥

  map_tokens-KeepsForward :
      (clock : TranscriptionClock) (tokens mapped : List (TranscriptToken Confidence))
      → IsOrdered clock
      → map_tokens clock tokens ≡ ok mapped
      → KeepsForward tokens mapped
  unfolding map_tokens
  map_tokens-KeepsForward clock [] mapped o h = subst (KeepsForward []) (ok_inj h) tt
  map_tokens-KeepsForward clock (t ∷ ts) mapped o h =
      let (m, good, h') = bind_ok (map_token clock t) _ mapped h in
      let (ms, rest, h'') = bind_ok (map_tokens clock ts) _ mapped h' in
      let kept : (int_le t.start_time_ms t.end_time_ms ≡ false) ⊎ IsForward m =
        elim (Bool-cases (int_le t.start_time_ms t.end_time_ms)) [
          | inl f ↦ inr (map_token-IsForward clock t m o f good)
          | inr n ↦ inl n
        ] in
      subst (KeepsForward (t ∷ ts)) (ok_inj h'') (kept, map_tokens-KeepsForward clock ts ms o rest)

  checked_ok :
      (u v : ℕ) (utterance : FinalTranscriptUtterance Confidence)
      (ts : List (TranscriptToken Confidence)) (mapped : FinalTranscriptUtterance Confidence)
      → checked u v utterance ts ≡ ok mapped
      → (u ≤ v)
        × ((record utterance { start_time_ms = pos u; end_time_ms = pos v; tokens = ts }) ≡ mapped)
  checked_ok u v utterance ts mapped h = elim (Bool-cases (ltb v u)) [
    | inl less ↦ ground (arith, less)
    | inr fits ↦ (ground arith, ok_inj (if_false (ltb v u) _ _ _ fits h))
  ]

  -- With the clock's frames in order, an utterance that is mapped runs forward in capture time, and
  -- so does every token of it that ran forward in the provider's time.
  pub map_utterance-IsForward :
      (clock : TranscriptionClock) (utterance mapped : FinalTranscriptUtterance Confidence)
      → IsOrdered clock
      → map_utterance clock utterance ≡ ok mapped
      → (int_le mapped.start_time_ms mapped.end_time_ms ≡ true)
        × KeepsForward utterance.tokens mapped.tokens
  unfolding map_utterance
  map_utterance-IsForward clock utterance mapped o h =
      let (u, at_start, h₁) = bind_ok (boundary clock utterance.start_time_ms false) _ mapped h in
      let (v, at_end, h₂) = bind_ok (boundary clock utterance.end_time_ms true) _ mapped h₁ in
      let (ts, good, h₃) = bind_ok (map_tokens clock utterance.tokens) _ mapped h₂ in
      let tokens = map_tokens-KeepsForward clock utterance.tokens ts o good in
      let (le, same) = checked_ok u v utterance ts mapped h₃ in
      subst
        (λ m.
          (int_le m.start_time_ms m.end_time_ms ≡ true) × KeepsForward utterance.tokens m.tokens)
        same (ground arith, tokens)
