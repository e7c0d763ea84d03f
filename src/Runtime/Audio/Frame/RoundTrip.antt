-- ===== src/Runtime/Audio/Frame/RoundTrip.antt =====
-- audio.rs: a frame survives its encoding, and only encodings are decoded.
use native.Mathlib.Nat.{pow-suc}
use mathlib.Core.List.{append_assoc, append-nil}
use parlando.Common.{
  ℕ, zero, suc, ◌+◌, ◌*◌, ◌/◌, ◌%◌, ◌^◌, ◌<◌, ◌≤◌, ◌≡◌, refl, true, List, [], ◌∷◌, ◌++◌, length,
  take, drop, take-append, drop-append, take-append-drop, All, arith, nat_eq, nat_eq_iff,
  length-append, ap, ◌∙◌,
}
use parlando.Runtime.Audio.Frame.{
  AudioFrame, audio_frame_bytes, audio_protocol_version, to_be_bytes, from_be_bytes,
  from_be_bytes_onto, ok, slice, decode, encode,
}

from_be_bytes_onto-append :
    (acc : ℕ) (bs cs : List ℕ)
    → from_be_bytes_onto acc (bs ++ cs) ≡ from_be_bytes_onto (from_be_bytes_onto acc bs) cs
unfolding from_be_bytes_onto
from_be_bytes_onto-append acc [] cs = refl
from_be_bytes_onto-append acc (b ∷ bs) cs = from_be_bytes_onto-append (acc * 256 + b) bs cs

from_be_bytes_onto-to_be_bytes :
    (n x : ℕ) → x < 256 ^ n → from_be_bytes_onto 0 (to_be_bytes n x) ≡ x
unfolding to_be_bytes from_be_bytes_onto
from_be_bytes_onto-to_be_bytes zero x h = omega arith
from_be_bytes_onto-to_be_bytes (suc n) x h =
    rw (from_be_bytes_onto-append 0 (to_be_bytes n (x / 256)) (x % 256 ∷ []))
      (rw (from_be_bytes_onto-to_be_bytes n (x / 256) (omega (arith, pow-suc 256 n))) (omega arith))

length-to_be_bytes : (n x : ℕ) → length (to_be_bytes n x) ≡ n
unfolding to_be_bytes
length-to_be_bytes zero x = refl
length-to_be_bytes (suc n) x =
    omega (
      arith,
      length-append (to_be_bytes n (x / 256)) (x % 256 ∷ []),
      length-to_be_bytes n (x / 256),
    )

-- A frame whose payload has 960 bytes and whose numbers fit their fields is decoded from its
-- encoding.
pub decode-encode :
    (frame : AudioFrame)
    → frame.sequence < 2 ^ 32
    → frame.timestamp_ms < 2 ^ 64
    → length frame.pcm ≡ audio_frame_bytes
    → decode (encode frame) ≡ ok frame
unfolding decode encode from_be_bytes
decode-encode frame s t c =
    let seq = to_be_bytes 4 frame.sequence in
    let time = to_be_bytes 8 frame.timestamp_ms in
    let tail = time ++ frame.pcm in
    let seq_length = length-to_be_bytes 4 frame.sequence in
    let time_length = length-to_be_bytes 8 frame.timestamp_ms in
    let whole : nat_eq (length (audio_protocol_version ∷ (seq ++ tail))) 973 ≡ true =
      (nat_eq_iff _ _).1 (omega (arith, length-append seq tail, length-append time frame.pcm)) in
    let header : drop 12 (seq ++ tail) ≡ frame.pcm =
      rw (← append_assoc seq time frame.pcm)
        (drop-append 12 (seq ++ time) frame.pcm (omega (arith, length-append seq time))) in
    let clock : take 8 (drop 4 (seq ++ tail)) ≡ time =
      rw (drop-append 4 seq tail seq_length) (take-append 8 time frame.pcm time_length) in
    rw (whole, take-append 4 seq tail seq_length, clock, header)
      (cc (
        from_be_bytes_onto-to_be_bytes 4 frame.sequence s,
        from_be_bytes_onto-to_be_bytes 8 frame.timestamp_ms t,
      ))

last_byte :
    (n acc b : ℕ) (bs : List ℕ)
    → b < 256
    → to_be_bytes (suc n) (acc * 256 + b) ++ bs ≡ to_be_bytes n acc ++ b ∷ bs
unfolding to_be_bytes
last_byte n acc b bs h =
    let high : (acc * 256 + b) / 256 ≡ acc = omega arith in
    let low : (acc * 256 + b) % 256 ≡ b = omega arith in
    rw (high, low) (append_assoc (to_be_bytes n acc) (b ∷ []) bs)

-- The bytes of the number that some bytes make are those bytes again.
to_be_bytes-from_be_bytes_onto :
    (bs : List ℕ) (acc n m : ℕ)
    → m ≡ n + length bs
    → All (λ b. b < 256) bs
    → to_be_bytes m (from_be_bytes_onto acc bs) ≡ to_be_bytes n acc ++ bs
unfolding from_be_bytes_onto
to_be_bytes-from_be_bytes_onto [] acc n m e h =
    let same : m ≡ n = omega (arith, e) in rw (same, append-nil) refl
to_be_bytes-from_be_bytes_onto (b ∷ bs) acc n m e h =
    to_be_bytes-from_be_bytes_onto bs (acc * 256 + b) (suc n) m (omega (arith, e)) h.1
    ∙ last_byte n acc b bs h.0

All-take : (n : ℕ) (bs : List ℕ) → All (λ b. b < 256) bs → All (λ b. b < 256) (take n bs)
All-take zero bs h = tt
All-take (suc n) [] h = tt
All-take (suc n) (b ∷ bs) h = (h.0, All-take n bs h.1)

All-drop : (n : ℕ) (bs : List ℕ) → All (λ b. b < 256) bs → All (λ b. b < 256) (drop n bs)
All-drop zero bs h = h
All-drop (suc n) [] h = tt
All-drop (suc n) (b ∷ bs) h = All-drop n bs h.1

length-slice :
    (from n : ℕ) (bs : List ℕ) → from + n ≤ length bs → length (take n (drop from bs)) ≡ n
length-slice zero zero bs h = refl
length-slice zero (suc n) [] h = absurd (omega arith)
length-slice zero (suc n) (b ∷ bs) h = omega (arith, length-slice zero n bs (omega arith))
length-slice (suc from) n [] h = absurd (omega arith)
length-slice (suc from) n (b ∷ bs) h = length-slice from n bs (omega arith)

slice-bytes :
    (from n : ℕ) (bs : List ℕ)
    → from + n ≤ length bs
    → All (λ b. b < 256) bs
    → to_be_bytes n (from_be_bytes (slice from n bs)) ≡ slice from n bs
unfolding from_be_bytes to_be_bytes
slice-bytes from n bs fits h =
    to_be_bytes-from_be_bytes_onto (slice from n bs) 0 0 n
      (omega (arith, length-slice from n bs fits)) (All-take n (drop from bs) (All-drop from bs h))

record IsFrameOf (v : ℕ) (rest : List ℕ) (frame : AudioFrame) : Type 0 where
  version : v ≡ 1
  size : length rest ≡ 972
  sequence : frame.sequence ≡ from_be_bytes (slice 0 4 rest)
  timestamp : frame.timestamp_ms ≡ from_be_bytes (slice 4 8 rest)
  pcm : frame.pcm ≡ drop 12 rest

decode_fields :
    (v : ℕ) (rest : List ℕ) (frame : AudioFrame)
    → decode (v ∷ rest) ≡ ok frame
    → IsFrameOf v rest frame
unfolding decode
decode_fields v rest frame e = record {
  version = ground arith;
  size = ground arith;
  sequence = ground arith;
  timestamp = ground arith;
  pcm = ground arith;
}

drop_twice : (bs : List ℕ) → drop 12 bs ≡ drop 8 (drop 4 bs)
drop_twice [] = refl
drop_twice (a ∷ []) = refl
drop_twice (a ∷ b ∷ []) = refl
drop_twice (a ∷ b ∷ c ∷ []) = refl
drop_twice (a ∷ b ∷ c ∷ d ∷ bs) = refl

rejoin : (bs : List ℕ) → take 4 bs ++ (take 8 (drop 4 bs) ++ drop 12 bs) ≡ bs
rejoin bs = rw (drop_twice bs, take-append-drop 8 (drop 4 bs)) (take-append-drop 4 bs)

-- What is decoded is the encoding of the frame that it gives: one wire form for each frame.
pub encode-decode :
    (bytes : List ℕ) (frame : AudioFrame)
    → All (λ b. b < 256) bytes
    → decode bytes ≡ ok frame
    → encode frame ≡ bytes
unfolding decode encode
encode-decode [] frame h e = cc
encode-decode (v ∷ rest) frame h e =
    let fields = decode_fields v rest frame e in
    rw
      (
        fields.version,
        fields.sequence,
        fields.timestamp,
        fields.pcm,
        slice-bytes 0 4 rest (omega (arith, fields.size)) h.1,
        slice-bytes 4 8 rest (omega (arith, fields.size)) h.1,
      )
      (ap (λ (bs : List ℕ). 1 ∷ bs) (rejoin rest))
