-- ===== src/Runtime/Audio/Publisher/Frames.antt =====
-- audio_publisher.rs: the frames of a message carry its sound, padded to whole frames, in order.
use mathlib.Core.List.{append_assoc, append-nil}
use parlando.Common.{
  ℕ, zero, suc, ◌+◌, ◌-◌, ◌*◌, ◌/◌, ◌≤◌, ◌<◌, ◌≡◌, refl, true, false, List, [], ◌∷◌, ◌++◌, Option,
  none, some, length, take, drop, arith, nat_eq, nat_eq_iff, ◌%◌, ◌^◌, Bool, if◌then◌else◌, ◌&&◌,
  length-append, take-append-drop, length-take, length-drop, take_all, drop_all, Bool-cases, inl,
  inr, ltb, subst, ◌↔◌, ◌∙◌,
}
use parlando.Runtime.Audio.Frame.{AudioFrame, encode, decode, Decoded, ok, err, audio_frame_bytes}
use parlando.Runtime.Audio.Frame.RoundTrip.{decode-encode}
use parlando.Runtime.Audio.Publisher.{
  AudioChunk, Publication, published, Collected, collected, refused, is_silent, publish_collected,
  collect, payloads, zeros, frame, publications, publish, publish_pcm, prebuffer_frames,
  frame_send_offset, AudioPublishSummary,
}

-- The number and the time of the frame at an index.
abbrev pub is_frame_at : ℕ → AudioFrame → Bool
is_frame_at index f =
    nat_eq f.sequence (index % 2 ^ 32) && nat_eq f.timestamp_ms (index * 20 % 2 ^ 64)

abbrev pub append_pcm : ℕ → Decoded → Option (List ℕ) → Option (List ℕ)
append_pcm index (ok f) (some rest) = if is_frame_at index f then some (f.pcm ++ rest) else none
append_pcm index (ok f) none = none
append_pcm index (err error) rest = none

-- What a browser hears that decodes every frame and wants their numbers and times in order.
abbrev pub heard : ℕ → List Publication → Option (List ℕ)
heard index [] = some []
heard index (p ∷ rest) = append_pcm index (decode p.bytes) (heard (index + 1) rest)

length-zeros : (n : ℕ) → length (zeros n) ≡ n
length-zeros zero = refl
length-zeros (suc n) = omega (arith, length-zeros n)

length-take-le : (n : ℕ) (xs : List ℕ) → length (take n xs) ≤ n
length-take-le zero xs = omega arith
length-take-le (suc n) [] = omega arith
length-take-le (suc n) (x ∷ xs) = omega (arith, length-take-le n xs)

frame-decodes :
    (index : ℕ) (payload : List ℕ)
    → length payload ≤ audio_frame_bytes
    → decode (encode (frame index payload)) ≡ ok (frame index payload)
unfolding frame
frame-decodes index payload fits = decode-encode (frame index payload) (omega arith) (omega arith) (
    omega (
      arith,
      length-append payload (zeros (audio_frame_bytes - length payload)),
      length-zeros (audio_frame_bytes - length payload),
    ))

frame-is_frame_at : (index : ℕ) (payload : List ℕ) → is_frame_at index (frame index payload) ≡ true
unfolding frame
frame-is_frame_at index payload = ground (
  arith,
  nat_eq_iff (index % 2 ^ 32) (index % 2 ^ 32),
  nat_eq_iff (index * 20 % 2 ^ 64) (index * 20 % 2 ^ 64),
)

append_pcm-full :
    (index n : ℕ) (xs zs : List ℕ)
    → n ≡ audio_frame_bytes
    → n ≤ length xs
    → append_pcm index (decode (encode (frame index (take n xs)))) (some (drop n xs ++ zs))
      ≡ some (xs ++ zs)
unfolding frame
append_pcm-full index n xs zs size long =
    let whole : length (take n xs) ≡ n = length-take n xs long in
    let none_padded : audio_frame_bytes - length (take n xs) ≡ 0 = omega arith in
    rw (
      frame-decodes index (take n xs) (omega arith),
      frame-is_frame_at index (take n xs),
      none_padded,
      append-nil (take n xs),
      ← append_assoc (take n xs) (drop n xs) zs,
      take-append-drop n xs,
    )

append_pcm-last :
    (index n : ℕ) (xs : List ℕ)
    → n ≡ audio_frame_bytes
    → length xs ≤ n
    → append_pcm index (decode (encode (frame index (take n xs)))) (some [])
      ≡ some (xs ++ zeros (audio_frame_bytes - length xs))
unfolding frame
append_pcm-last index n xs size short = rw (
  take_all n xs short,
  frame-decodes index xs (omega arith),
  frame-is_frame_at index xs,
  append-nil (xs ++ zeros (audio_frame_bytes - length xs)),
)

-- The sound of a list of publications, the first with this index, with its padding.
abbrev pub Carries : ℕ → List ℕ → List Publication → Type 0
Carries index pcm sent =
    (padding : ℕ) × (padding < audio_frame_bytes)
    × (length sent * audio_frame_bytes ≡ length pcm + padding)
    × (heard index sent ≡ some (pcm ++ zeros padding))

payloads-nil : (fuel : ℕ) → payloads fuel [] ≡ []
unfolding payloads
payloads-nil zero = refl
payloads-nil (suc fuel) = refl

last-Carries :
    (fuel prebuffer index x : ℕ) (xs : List ℕ)
    → length (x ∷ xs) ≤ audio_frame_bytes
    → Carries index (x ∷ xs) (publications prebuffer index (payloads (suc fuel) (x ∷ xs)))
unfolding publications payloads
last-Carries fuel prebuffer index x xs short =
    rw (drop_all audio_frame_bytes (x ∷ xs) short, payloads-nil fuel)
      (
        audio_frame_bytes - length (x ∷ xs),
        omega arith,
        omega arith,
        append_pcm-last index audio_frame_bytes (x ∷ xs) refl short,
      )

no_shorter : (m n : ℕ) → ltb m n ≡ false → n ≤ m
no_shorter m n h = ground arith

no_longer : (m n : ℕ) → ltb m n ≡ true → m ≤ n
no_longer m n h = ground arith

publications-Carries :
    (fuel prebuffer index : ℕ) (pcm : List ℕ)
    → length pcm ≤ fuel
    → Carries index pcm (publications prebuffer index (payloads fuel pcm))
unfolding publications payloads
publications-Carries zero prebuffer index [] h = (0, omega arith, omega arith, refl)
publications-Carries zero prebuffer index (x ∷ xs) h = absurd (omega arith)
publications-Carries (suc fuel) prebuffer index [] h = (0, omega arith, omega arith, refl)
publications-Carries (suc fuel) prebuffer index (x ∷ xs) h =
    let pcm = x ∷ xs in
    let later = drop audio_frame_bytes pcm in
    let dropped = length-drop audio_frame_bytes pcm in
    let (padding, small, count, sound) =
      publications-Carries fuel prebuffer (index + 1) later (omega (arith, dropped)) in
    elim (Bool-cases (ltb (length pcm) audio_frame_bytes)) [
      | inr long ↦
          let fits : audio_frame_bytes ≤ length pcm =
            no_shorter (length pcm) audio_frame_bytes long in
          (
            padding,
            small,
            omega (arith, count, dropped),
            rw sound (append_pcm-full index audio_frame_bytes pcm (zeros padding) refl fits),
          )
      | inl short ↦
          last-Carries fuel prebuffer index x xs (no_longer (length pcm) audio_frame_bytes short)
    ]

-- What a published message's frames are: one for each 960 bytes begun, each one a frame that a
-- browser decodes, and together the sound of the message followed by silence.
abbrev pub IsMessage : List ℕ → List Publication → AudioPublishSummary → Type 0
IsMessage pcm sent summary =
    Carries 0 pcm sent
    × (summary.chunks_published ≡ length sent)
    × (summary.bytes_published ≡ length pcm)
    × (0 < length pcm)

-- The sound of the chunks, where every one that is not empty has the canonical format.
abbrev pub sound_of : List AudioChunk → List ℕ
sound_of [] = []
sound_of (chunk ∷ rest) = chunk.bytes ++ sound_of rest

silent-eq : (bytes : List ℕ) → is_silent bytes ≡ true → bytes ≡ []
silent-eq [] h = refl
silent-eq (x ∷ xs) h = cc

collect-sound_of :
    (pcm out : List ℕ) (chunks : List AudioChunk)
    → collect pcm chunks ≡ collected out
    → out ≡ pcm ++ sound_of chunks
unfolding collect
collect-sound_of pcm out [] h = rw (append-nil pcm) (ground arith)
collect-sound_of pcm out (chunk ∷ rest) h = elim (Bool-cases (is_silent chunk.bytes)) [
  | inl silent ↦ rw (silent-eq chunk.bytes silent) (collect-sound_of pcm out rest (ground arith))
  | inr loud ↦
      collect-sound_of (pcm ++ chunk.bytes) out rest (ground arith)
      ∙ append_assoc pcm chunk.bytes (sound_of rest)
]

publish_pcm-IsMessage :
    (prebuffer : ℕ) (pcm : List ℕ) (sent : List Publication) (summary : AudioPublishSummary)
    → publish_pcm prebuffer pcm ≡ published sent summary
    → IsMessage pcm sent summary
publish_pcm-IsMessage prebuffer [] sent summary h = cc
publish_pcm-IsMessage prebuffer (x ∷ xs) sent summary h =
    let pcm = x ∷ xs in
    let made : publications prebuffer 0 (payloads (length pcm) pcm) ≡ sent = cc in
    (
      subst (Carries 0 pcm) made (publications-Carries (length pcm) prebuffer 0 pcm (omega arith)),
      cc,
      cc,
      omega arith,
    )

publish_collected-IsMessage :
    (prebuffer : ℕ) (c : Collected) (chunks : List AudioChunk) (sent : List Publication)
    (summary : AudioPublishSummary)
    → collect [] chunks ≡ c
    → publish_collected prebuffer c ≡ published sent summary
    → IsMessage (sound_of chunks) sent summary
publish_collected-IsMessage prebuffer (collected pcm) chunks sent summary made h =
    subst (λ (bytes : List ℕ). IsMessage bytes sent summary) (collect-sound_of [] pcm chunks made)
      (publish_pcm-IsMessage prebuffer pcm sent summary h)
publish_collected-IsMessage prebuffer (refused error) chunks sent summary made h = cc

-- A published message carries the bytes of all its chunks, in order, in frames that a browser
-- decodes, numbered and timed in order, one for each 960 bytes begun; only the last frame is padded,
-- with silence.
pub publish-IsMessage :
    (prebuffer : ℕ) (chunks : List AudioChunk) (sent : List Publication)
    (summary : AudioPublishSummary)
    → publish prebuffer chunks ≡ published sent summary
    → IsMessage (sound_of chunks) sent summary
unfolding publish
publish-IsMessage prebuffer chunks sent summary h =
    publish_collected-IsMessage prebuffer (collect [] chunks) chunks sent summary refl h

lead_bounds :
    (index prebuffer t : ℕ)
    → 1 ≤ prebuffer
    → (frame_send_offset index prebuffer ≤ t) ↔ (index < t / 20 + prebuffer)
unfolding frame_send_offset
lead_bounds index prebuffer t h = (λ early. omega arith, λ ahead. omega arith)

prebuffer_bounds :
    (jitter_buffer_ms : ℕ)
    → (1 ≤ prebuffer_frames jitter_buffer_ms)
      × (jitter_buffer_ms ≤ prebuffer_frames jitter_buffer_ms * 20)
unfolding prebuffer_frames
prebuffer_bounds jitter_buffer_ms = (omega arith, omega arith)

-- The frames sent by a time `t` after the start are those that the playout, at one frame in 20 ms,
-- has begun by then, and ahead of it the prebuffered ones, which cover the jitter buffer.
pub frame_send_offset_lead :
    (jitter_buffer_ms index t : ℕ)
    → ((frame_send_offset index (prebuffer_frames jitter_buffer_ms) ≤ t)
        ↔ (index < t / 20 + prebuffer_frames jitter_buffer_ms))
      × (jitter_buffer_ms ≤ prebuffer_frames jitter_buffer_ms * 20)
frame_send_offset_lead jitter_buffer_ms index t =
    let (some_ahead, covers) = prebuffer_bounds jitter_buffer_ms in
    (lead_bounds index (prebuffer_frames jitter_buffer_ms) t some_ahead, covers)
