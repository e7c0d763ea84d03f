-- ===== src/Runtime/Audio/Frame.antt =====
-- audio.rs: `AudioFrame::encode` and `decode`. A byte is a number, below 256 where it matters.
pub mod RoundTrip
use parlando.Common.{
  ℕ, zero, suc, ◌+◌, ◌*◌, ◌/◌, ◌%◌, ◌^◌, ◌<◌, ◌≡◌, refl, Bool, true, false, ◌&&◌, List, [], ◌∷◌,
  ◌++◌, Option, none, some, length, take, drop, All, arith, nat_eq, if◌then◌else◌, length-append,
  ap, sym, ◌∙◌, Bool-cases, inl, inr,
}

pub record AudioFrame : Type 0 where
  pub sequence : ℕ
  pub timestamp_ms : ℕ
  pub pcm : List ℕ

abbrev pub audio_protocol_version : ℕ
audio_protocol_version = 1

abbrev pub audio_frame_bytes : ℕ
audio_frame_bytes = 960

abbrev pub audio_header_bytes : ℕ
audio_header_bytes = 13

-- `to_be_bytes` of an unsigned integer of `n` bytes.
unfoldable pub to_be_bytes : ℕ → ℕ → List ℕ
to_be_bytes zero x = []
to_be_bytes (suc n) x = to_be_bytes n (x / 256) ++ x % 256 ∷ []

from_be_bytes_onto : ℕ → List ℕ → ℕ
from_be_bytes_onto acc [] = acc
from_be_bytes_onto acc (b ∷ bs) = from_be_bytes_onto (acc * 256 + b) bs

-- `from_be_bytes`.
unfoldable pub from_be_bytes : List ℕ → ℕ
unfolding from_be_bytes_onto
from_be_bytes bytes = from_be_bytes_onto 0 bytes

pub data DecodeError : Type 0 where
  wrong_length : DecodeError
  unsupported_version : ℕ → DecodeError

pub data Decoded : Type 0 where
  ok : AudioFrame → Decoded
  err : DecodeError → Decoded

-- `bytes[from..to]`.
abbrev pub slice : ℕ → ℕ → List ℕ → List ℕ
slice from len bytes = take len (drop from bytes)

unfoldable pub decode_frame : ℕ → List ℕ → Decoded
decode_frame version bytes =
    if nat_eq version audio_protocol_version
    then ok (record {
      sequence = from_be_bytes (slice 1 4 bytes);
      timestamp_ms = from_be_bytes (slice 5 8 bytes);
      pcm = drop audio_header_bytes bytes;
    })
    else err (unsupported_version version)

-- `decode`: the length is tested first, so there is a first byte.
unfoldable pub decode : List ℕ → Decoded
unfolding decode_frame
decode [] = err wrong_length
decode (version ∷ rest) =
    if nat_eq (length (version ∷ rest)) (audio_header_bytes + audio_frame_bytes)
    then decode_frame version (version ∷ rest)
    else err wrong_length

unfoldable pub encode : AudioFrame → List ℕ
encode frame =
    audio_protocol_version
    ∷ (to_be_bytes 4 frame.sequence ++ (to_be_bytes 8 frame.timestamp_ms ++ frame.pcm))
