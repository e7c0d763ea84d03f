-- ===== src/Runtime/Speech.antt =====
-- rust-server/src/tts.rs: the alignment of synthesized speech with its words. A character is a value
-- of a parameter, with the classes that the code asks for; a text is a list of characters. The
-- `f64` numbers of the provider are a parameter too, with the operations that the code uses. A panic
-- of `expect` is `none` in `alignment_tokens`.
pub mod Words
pub mod Alignment
use parlando.Common.{
  ℕ, Bool, true, false, not, ◌||◌, ◌&&◌, List, [], ◌∷◌, ◌++◌, Option, none, some, max, ltb, nat_eq,
  length, if◌then◌else◌,
}

pub record Characters : Type 1 where
  pub Character : Type 0
  pub is_whitespace : Character → Bool
  pub is_alphanumeric : Character → Bool
  -- An apostrophe or a hyphen.
  pub is_connector : Character → Bool

-- `f64`: `less` is `<`, `plus` is `+`, and `round` is `round` and the cast to `i64`, on numbers that
-- are not negative.
pub record Floats : Type 1 where
  pub Number : Type 0
  pub zero : Number
  pub i64_max : Number
  pub is_finite : Number → Bool
  pub less : Number → Number → Bool
  pub plus : Number → Number → Number
  pub round : Number → ℕ

pub record TimedCharacter (C : Characters) : Type 0 where
  pub character : C.Character
  pub start_ms : ℕ
  pub end_ms : ℕ

-- A `TranscriptToken` with no confidence.
pub data Kind : Type 0 where
  word punctuation : Kind

pub record SpokenToken (C : Characters) : Type 0 where
  pub kind : Kind
  pub text : List C.Character
  pub start_time_ms : ℕ
  pub end_time_ms : ℕ

pub data AlignmentError : Type 0 where
  lengths_differ invalid_interval moved_backwards : AlignmentError

pub data Appended (C : Characters) : Type 0 where
  appended : List (TimedCharacter C) → Appended C
  refused : AlignmentError → Appended C

abbrev pub is_before : ℕ → Option ℕ → Bool
is_before start none = false
is_before start (some previous) = ltb start previous

-- The guard of the loop, and the two rounded times. A number that is not negative rounds to a
-- natural number.
unfoldable pub interval : (F : Floats) → F.Number → F.Number → Option (ℕ × ℕ)
interval F start duration =
    if not (F.is_finite start)
      || (not (F.is_finite duration)
          || (F.less start F.zero
              || (F.less duration F.zero || not (F.less (F.plus start duration) F.i64_max))))
    then none
    else some (F.round start, F.round (F.plus start duration))

module _ {C : Characters} where
  abbrev pub last_start : List (TimedCharacter C) → Option ℕ
  last_start [] = none
  last_start (item ∷ []) = some item.start_ms
  last_start (item ∷ other ∷ rest) = last_start (other ∷ rest)

  abbrev pub timed : ℕ → ℕ → List C.Character → List (TimedCharacter C)
  timed start stop [] = []
  timed start stop (c ∷ text) =
      record { character = c; start_ms = start; end_ms = stop } ∷ timed start stop text

  module _ (F : Floats) where
    -- The loop over the zipped arrays.
    unfoldable pub append_intervals :
        List (List C.Character)
        → List F.Number
        → List F.Number
        → List (TimedCharacter C)
        → Appended C
    unfolding interval
    append_intervals (text ∷ texts) (start ∷ starts) (duration ∷ durations) output =
        elim (interval F start duration) [
          | none ↦ refused invalid_interval
          | some (start_ms, end_ms) ↦
              if is_before start_ms (last_start output)
              then refused moved_backwards
              else append_intervals texts starts durations (output ++ timed start_ms end_ms text)
        ]
    append_intervals [] starts durations output = appended output
    append_intervals (text ∷ texts) [] durations output = appended output
    append_intervals (text ∷ texts) (start ∷ starts) [] output = appended output

    unfoldable pub append_alignment :
        List (List C.Character)
        → List F.Number
        → List F.Number
        → List (TimedCharacter C)
        → Appended C
    unfolding append_intervals
    append_alignment texts starts durations output =
        if nat_eq (length texts) (length starts) && nat_eq (length texts) (length durations)
        then append_intervals texts starts durations output
        else refused lengths_differ

  abbrev pub new_token : Kind → TimedCharacter C → ℕ → SpokenToken C
  new_token kind item stop = record {
    kind = kind;
    text = item.character ∷ [];
    start_time_ms = item.start_ms;
    end_time_ms = stop;
  }

  -- `tokens.last_mut().expect(…)` with the character pushed.
  unfoldable pub extend_last :
      TimedCharacter C → List (SpokenToken C) → Option (List (SpokenToken C))
  extend_last item [] = none
  extend_last item (token ∷ []) = some (
      record token {
        text = token.text ++ item.character ∷ [];
        end_time_ms = max token.end_time_ms item.end_ms;
      }
      ∷ [])
  extend_last item (token ∷ other ∷ rest) = elim (extend_last item (other ∷ rest)) [
    | none ↦ none
    | some extended ↦ some (token ∷ extended)
  ]

  abbrev pub next_is_alphanumeric : List (TimedCharacter C) → Bool
  next_is_alphanumeric [] = false
  next_is_alphanumeric (next_item ∷ rest) = C.is_alphanumeric next_item.character

  abbrev pub continues_word : Bool → TimedCharacter C → List (TimedCharacter C) → Bool
  continues_word in_word item rest =
      C.is_alphanumeric item.character
      || (C.is_connector item.character && (in_word && next_is_alphanumeric rest))

  -- The tokens so far with the character, and whether a word goes on.
  unfoldable pub take_character :
      List (SpokenToken C)
      → Bool
      → TimedCharacter C
      → List (TimedCharacter C)
      → Option (List (SpokenToken C)) × Bool
  take_character tokens in_word item rest =
      if C.is_whitespace item.character
      then (some tokens, false)
      else if continues_word in_word item rest
      then (
        if in_word
            then extend_last item tokens
            else some (tokens ++ new_token word item item.end_ms ∷ []),
        true,
      )
      else (some (tokens ++ new_token punctuation item item.start_ms ∷ []), false)

  abbrev go_on :
      (List (SpokenToken C) → Bool → Option (List (SpokenToken C)))
      → Option (List (SpokenToken C)) × Bool
      → Option (List (SpokenToken C))
  go_on later (none, in_word) = none
  go_on later (some tokens, in_word) = later tokens in_word

  unfoldable pub tokens_from :
      List (SpokenToken C) → Bool → List (TimedCharacter C) → Option (List (SpokenToken C))
  unfolding take_character
  tokens_from tokens in_word [] = some tokens
  tokens_from tokens in_word (item ∷ rest) =
      go_on (λ tokens' in_word'. tokens_from tokens' in_word' rest)
        (take_character tokens in_word item rest)

  unfoldable pub alignment_tokens : List (TimedCharacter C) → Option (List (SpokenToken C))
  unfolding tokens_from
  alignment_tokens characters = tokens_from [] false characters
