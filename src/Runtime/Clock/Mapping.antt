-- ===== src/Runtime/Clock/Mapping.antt =====
-- clock.rs: `TranscriptionClock::map`, over the utterances of transcription.rs. A confidence is an
-- `f64` that is only carried along, so its type is a parameter.
pub mod Forward
use parlando.Common.{
  ℕ, ◌≤◌, ◌<◌, ◌≡◌, refl, Bool, true, false, List, [], ◌∷◌, String, Option, ltb, nat_eq,
  if◌then◌else◌, arith, All, inl, inr,
}
use parlando.Common.Int.{ℤ, pos, negsuc}
use parlando.Runtime.Clock.{
  TranscriptionClock, Result, ok, err, reversed_utterance, boundary, ◌>>=◌,
}
use parlando.Runtime.Clock.Order.{IsOrdered}
use parlando.Runtime.Clock.Boundaries.{boundary_mono}

pub record TranscriptToken (Confidence : Type 0) : Type 0 where
  pub kind : String
  pub text : String
  pub start_time_ms : ℤ
  pub end_time_ms : ℤ
  pub confidence : Option Confidence

pub record FinalTranscriptUtterance (Confidence : Type 0) : Type 0 where
  pub start_time_ms : ℤ
  pub end_time_ms : ℤ
  pub text : String
  pub result_ids : List String
  pub tokens : List (TranscriptToken Confidence)

abbrev pub int_eq : ℤ → ℤ → Bool
int_eq (pos m) (pos n) = nat_eq m n
int_eq (negsuc m) (negsuc n) = nat_eq m n
int_eq (pos m) (negsuc n) = false
int_eq (negsuc m) (pos n) = false

module _ {Confidence : Type 0} where
  unfoldable pub map_token :
      TranscriptionClock → TranscriptToken Confidence → Result (TranscriptToken Confidence)
  map_token clock token =
      let point = int_eq token.start_time_ms token.end_time_ms in
      do
        start ← boundary clock token.start_time_ms point
        end ← if point then ok start else boundary clock token.end_time_ms true
        ok (record token { start_time_ms = pos start; end_time_ms = pos end })

  unfoldable pub map_tokens :
      TranscriptionClock
      → List (TranscriptToken Confidence)
      → Result (List (TranscriptToken Confidence))
  map_tokens clock [] = ok []
  map_tokens clock (token ∷ tokens) = do
    mapped ← map_token clock token
    rest ← map_tokens clock tokens
    ok (mapped ∷ rest)

  abbrev pub checked :
      ℕ
      → ℕ
      → FinalTranscriptUtterance Confidence
      → List (TranscriptToken Confidence)
      → Result (FinalTranscriptUtterance Confidence)
  checked start end utterance tokens =
      if ltb end start
      then err reversed_utterance
      else ok
          (record utterance { start_time_ms = pos start; end_time_ms = pos end; tokens = tokens })

  unfoldable pub map_utterance :
      TranscriptionClock
      → FinalTranscriptUtterance Confidence
      → Result (FinalTranscriptUtterance Confidence)
  map_utterance clock utterance = do
    start ← boundary clock utterance.start_time_ms false
    end ← boundary clock utterance.end_time_ms true
    tokens ← map_tokens clock utterance.tokens
    checked start end utterance tokens
