-- ===== src/Runtime/Examples/Media.antt =====
-- Audio frames, the audio registry and the transcription clock.
use parlando.Common.{
  ℕ, zero, suc, ◌≡◌, ◌<◌, ◌≤◌, refl, true, List, [], ◌∷◌, none, some, arith, All, eq_String, lookup,
  inl,
}
use parlando.Common.Int.{pos}
use parlando.Runtime.Audio.Frame.{AudioFrame, Decoded, decode, encode}
use parlando.Runtime.Audio.Frame.RoundTrip.{decode-encode}
use parlando.Runtime.Audio.Registry.{
  Registry, AudioOutbound, binary, peer, is_current, disconnect, relay_partner,
}
use parlando.Runtime.Audio.Registry.Ownership.{disconnect-is_current}
use parlando.Runtime.Audio.Registry.Relay.{relay_partner-peer, pushed}
use parlando.Runtime.Clock.{TranscriptionClock, boundary, find_last, push_frame, record_frame}
use parlando.Runtime.Clock.Order.{IsOrdered, record_frame-IsOrdered}
use parlando.Runtime.Clock.Boundaries.{boundary_mono}
use parlando.Runtime.Clock.Mapping.{
  FinalTranscriptUtterance, TranscriptToken, map_utterance, map_tokens, map_token,
}
use parlando.Runtime.Clock.Mapping.Forward.{int_le, KeepsForward, map_utterance-IsForward}

abbrev silence_of : ℕ → List ℕ
silence_of zero = []
silence_of (suc n) = 0 ∷ silence_of n

abbrev frame : AudioFrame
frame = record { sequence = 5; timestamp_ms = 100; pcm = silence_of 960 }

decode-encode_example : decode (encode frame) ≡ Decoded.ok frame
decode-encode_example = decode-encode frame (omega arith) (omega arith) refl

abbrev wire : List ℕ
wire = 1 ∷ 0 ∷ 0 ∷ 0 ∷ 5 ∷ 0 ∷ 0 ∷ 0 ∷ 0 ∷ 0 ∷ 0 ∷ 0 ∷ 100 ∷ silence_of 960

silence_bytes : (n : ℕ) → All (λ b. b < 256) (silence_of n)
silence_bytes zero = tt
silence_bytes (suc n) = (omega arith, silence_bytes n)

wire_bytes : All (λ b. b < 256) wire
wire_bytes = (
  omega arith,
  (
    omega arith,
    (
      omega arith,
      (
        omega arith,
        (
          omega arith,
          (
            omega arith,
            (
              omega arith,
              (
                omega arith,
                (
                  omega arith,
                  (omega arith, (omega arith, (omega arith, (omega arith, silence_bytes 960)))),
                ),
              ),
            ),
          ),
        ),
      ),
    ),
  ),
)

-- A sender that counts what it was offered.
abbrev counted : ℕ → AudioOutbound → ℕ
counted n message = suc n

abbrev registry : Registry ℕ
registry =
    (
      "room",
      ("A", record { generation = "g1"; sender = 0 })
          ∷ ("B", record { generation = "g2"; sender = 0 })
          ∷ [],
    )
    ∷ []

disconnect-is_current_example :
    is_current (disconnect registry "room" "A" "g0") "room" "A" "g1" ≡ true
unfolding is_current peer lookup
disconnect-is_current_example = disconnect-is_current registry "room" "A" "g0" "room" "A" "g1"

relay_partner-peer_example :
    peer (relay_partner counted registry "room" "A" wire) "room" "B"
    ≡ pushed counted (binary wire) (peer registry "room" "B")
relay_partner-peer_example = relay_partner-peer counted registry "room" "A" "room" "B" wire

abbrev clock : TranscriptionClock
clock = record {
  frames =
      record { audio_start_ms = 0; capture_start_ms = 0 }
      ∷ record { audio_start_ms = 20; capture_start_ms = 50 }
      ∷ [];
  first_capture_ms = some 1000;
  audio_end_ms = 40;
}

clock-IsOrdered : IsOrdered clock
clock-IsOrdered = (refl, (omega arith), refl)

record_frame-IsOrdered_example : IsOrdered (record_frame clock 1100).0
unfolding record_frame push_frame
record_frame-IsOrdered_example = record_frame-IsOrdered clock 1100 clock-IsOrdered refl

boundary_mono_example : 20 ≤ 55
unfolding boundary find_last
boundary_mono_example =
    boundary_mono clock 20 25 true true 20 55 clock-IsOrdered (inl (omega arith)) refl refl

abbrev token : ℕ → ℕ → TranscriptToken (Unit {0})
token start end = record {
  kind = "word";
  text = "hi";
  start_time_ms = pos start;
  end_time_ms = pos end;
  confidence = none;
}

abbrev utterance : ℕ → ℕ → FinalTranscriptUtterance (Unit {0})
utterance start end = record {
  start_time_ms = pos start;
  end_time_ms = pos end;
  text = "hi";
  result_ids = [];
  tokens = token start end ∷ [];
}

map_utterance-IsForward_example :
    (int_le (pos 5) (pos 55) ≡ true) × KeepsForward (token 5 25 ∷ []) (token 5 55 ∷ [])
unfolding map_utterance map_tokens map_token boundary find_last
map_utterance-IsForward_example =
    map_utterance-IsForward clock (utterance 5 25) (utterance 5 55) clock-IsOrdered refl
