-- ===== src/Runtime/Examples/Speech.antt =====
-- tts.rs and audio_publisher.rs: a short message of an agent.
use parlando.Common.{
  retain, arith, ℕ, ◌≡◌, refl, List, [], ◌∷◌, ◌+◌, some, nat_eq, leb, ltb, true, All,
}
use parlando.Runtime.Audio.Publisher.{
  AudioChunk, Publication, Published, published, failed, AudioPublishSummary, publish, collect,
  payloads, publications,
}
use parlando.Runtime.Audio.Publisher.Frames.{IsMessage, publish-IsMessage}
use parlando.Runtime.Speech.{
  Characters, Floats, interval, TimedCharacter, SpokenToken, Appended, appended, refused,
  alignment_tokens, append_alignment, append_intervals,
}
use parlando.Runtime.Speech.Words.{text_of, IsForward, IsTimed}
use parlando.Runtime.Speech.Alignment.{IsArithmetic, flatten, is_visible, append_alignment-tokens}

abbrev chunk : List ℕ → AudioChunk
chunk bytes = record { bytes = bytes; sample_rate = 24000; channels = 1 }

abbrev speech : List AudioChunk
speech = chunk (1 ∷ 2 ∷ []) ∷ chunk [] ∷ chunk (3 ∷ []) ∷ []

abbrev no_summary : AudioPublishSummary
no_summary = record { chunks_published = 0; bytes_published = 0; sample_rate = 0; channels = 0 }

abbrev parts : Published → List Publication × AudioPublishSummary
parts (published sent summary) = (sent, summary)
parts (failed error) = ([], no_summary)

abbrev said : List Publication × AudioPublishSummary
said = parts (publish 5 speech)

said_lem : publish 5 speech ≡ published said.0 said.1
unfolding publish collect payloads publications
said_lem = refl

publish-IsMessage_example : IsMessage (1 ∷ 2 ∷ 3 ∷ []) said.0 said.1
publish-IsMessage_example = publish-IsMessage 5 speech said.0 said.1 said_lem

abbrev latin : Characters
latin = record {
  Character = ℕ;
  is_whitespace = λ c. nat_eq c 32;
  is_alphanumeric = λ c. leb 97 c;
  is_connector = λ c. nat_eq c 39;
}

-- Whole milliseconds.
abbrev whole : Floats
whole = record {
  Number = ℕ;
  zero = 0;
  i64_max = 1000000;
  is_finite = λ x. true;
  less = λ x y. ltb x y;
  plus = λ x y. x + y;
  round = λ x. x;
}

whole-IsArithmetic : IsArithmetic whole
whole-IsArithmetic = record {
  plus_grows = λ x y fine also up. ground arith;
  round_mono = λ x y fine up bound le. ground arith;
}

-- "it's ok."
abbrev texts : List (List ℕ)
texts = (105 ∷ 116 ∷ 39 ∷ []) ∷ (115 ∷ []) ∷ (32 ∷ 111 ∷ 107 ∷ 46 ∷ []) ∷ []

abbrev starts : List ℕ
starts = 0 ∷ 100 ∷ 200 ∷ []

abbrev items_of : Appended latin → List (TimedCharacter latin)
items_of (appended items) = items
items_of (refused error) = []

abbrev items : List (TimedCharacter latin)
items = items_of (append_alignment whole texts starts starts [])

items_lem : append_alignment whole texts starts starts [] ≡ appended items
unfolding append_alignment append_intervals interval
items_lem = refl

append_alignment-tokens_example :
    All IsTimed items
    × ((out : List (SpokenToken latin)) × (alignment_tokens items ≡ some out)
        × (text_of out ≡ retain (is_visible latin) (flatten texts))
        × All IsForward out)
append_alignment-tokens_example =
    append_alignment-tokens latin whole whole-IsArithmetic texts starts starts [] items tt items_lem
