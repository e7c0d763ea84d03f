-- ===== src/Runtime/Audio/Publisher.antt =====
-- rust-server/src/audio_publisher.rs: agent speech, cut into frames that are sent at a steady pace.
pub mod Frames
use parlando.Common.{
  ℕ, zero, suc, ◌+◌, ◌-◌, ◌*◌, ◌/◌, ◌%◌, ◌^◌, Bool, true, false, ◌||◌, ◌&&◌, not, List, [], ◌∷◌,
  ◌++◌, max, length, take, drop, eq_ℕ, ◌==◌, if◌then◌else◌, String,
}
use parlando.Runtime.Audio.Frame.{AudioFrame, encode, audio_frame_bytes}
use parlando.Runtime.Audio.Registry.{Registry, AudioOutbound, publish_agent}

-- tts.rs: `AudioChunk`.
pub record AudioChunk : Type 0 where
  pub bytes : List ℕ
  pub sample_rate : ℕ
  pub channels : ℕ

abbrev pub audio_sample_rate : ℕ
audio_sample_rate = 24000

abbrev pub audio_channels : ℕ
audio_channels = 1

abbrev pub audio_frame_duration_ms : ℕ
audio_frame_duration_ms = 20

-- `SessionAgentAudioPublisher::new`: the frames sent ahead of the playout.
unfoldable pub prebuffer_frames : ℕ → ℕ
prebuffer_frames jitter_buffer_ms =
    max ((jitter_buffer_ms + (audio_frame_duration_ms - 1)) / audio_frame_duration_ms) 1

-- In milliseconds; `saturating_sub` stops at 0.
unfoldable pub frame_send_offset : ℕ → ℕ → ℕ
frame_send_offset frame_index prebuffer = (frame_index - (prebuffer - 1)) * audio_frame_duration_ms

pub data PublishError : Type 0 where
  wrong_format empty_audio : PublishError

pub data Collected : Type 0 where
  collected : List ℕ → Collected
  refused : PublishError → Collected

abbrev pub is_canonical : AudioChunk → Bool
is_canonical chunk = (chunk.sample_rate == audio_sample_rate) && (chunk.channels == audio_channels)

abbrev pub is_silent : List ℕ → Bool
is_silent [] = true
is_silent (_ ∷ _) = false

-- The loop over the non-empty chunks.
unfoldable pub collect : List ℕ → List AudioChunk → Collected
collect pcm [] = collected pcm
collect pcm (chunk ∷ rest) =
    let skipped = collect pcm rest in
    let extended = collect (pcm ++ chunk.bytes) rest in
    if is_silent chunk.bytes
    then skipped
    else if is_canonical chunk
    then extended
    else refused wrong_format

-- `pcm.chunks(AUDIO_FRAME_BYTES)`, on fuel.
unfoldable pub payloads : ℕ → List ℕ → List (List ℕ)
payloads zero pcm = []
payloads (suc fuel) [] = []
payloads (suc fuel) (byte ∷ rest) =
    take audio_frame_bytes (byte ∷ rest) ∷ payloads fuel (drop audio_frame_bytes (byte ∷ rest))

abbrev pub zeros : ℕ → List ℕ
zeros zero = []
zeros (suc n) = 0 ∷ zeros n

-- `index as u32` and `index as u64 * 20`.
unfoldable pub frame : ℕ → List ℕ → AudioFrame
frame index payload = record {
  sequence = index % 2 ^ 32;
  timestamp_ms = index * 20 % 2 ^ 64;
  pcm = payload ++ zeros (audio_frame_bytes - length payload);
}

-- A frame's wire form, and when it is sent after the start.
pub record Publication : Type 0 where
  pub offset_ms : ℕ
  pub bytes : List ℕ

unfoldable pub publications : ℕ → ℕ → List (List ℕ) → List Publication
unfolding frame
publications prebuffer index [] = []
publications prebuffer index (payload ∷ rest) =
    record { offset_ms = frame_send_offset index prebuffer; bytes = encode (frame index payload) }
    ∷ publications prebuffer (index + 1) rest

pub record AudioPublishSummary : Type 0 where
  pub chunks_published : ℕ
  pub bytes_published : ℕ
  pub sample_rate : ℕ
  pub channels : ℕ

pub data Published : Type 0 where
  published : List Publication → AudioPublishSummary → Published
  failed : PublishError → Published

abbrev pub publish_pcm : ℕ → List ℕ → Published
publish_pcm prebuffer pcm =
    if is_silent pcm
    then failed empty_audio
    else (let sent = publications prebuffer 0 (payloads (length pcm) pcm) in
        published sent (record {
          chunks_published = length sent;
          bytes_published = length pcm;
          sample_rate = audio_sample_rate;
          channels = audio_channels;
        }))

abbrev pub publish_collected : ℕ → Collected → Published
publish_collected prebuffer (collected pcm) = publish_pcm prebuffer pcm
publish_collected prebuffer (refused error) = failed error

-- `publish`, but for the sending.
unfoldable pub publish : ℕ → List AudioChunk → Published
unfolding collect payloads publications
publish prebuffer chunks = publish_collected prebuffer (collect [] chunks)

module _ {Sender : Type 0} (try_send : Sender → AudioOutbound → Sender) where
  -- The frames go to whoever is connected when they are sent: `meanwhile` is what others do to the
  -- registry before the frame of an index.
  unfoldable pub send :
      (ℕ → Registry Sender → Registry Sender)
      → String
      → ℕ
      → List Publication
      → Registry Sender
      → Registry Sender
  send meanwhile id index [] registry = registry
  send meanwhile id index (publication ∷ rest) registry =
      send meanwhile id (index + 1) rest
        (publish_agent try_send (meanwhile index registry) id publication.bytes)
