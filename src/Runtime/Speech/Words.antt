-- ===== src/Runtime/Speech/Words.antt =====
-- tts.rs: the tokens of synthesized speech spell what was spoken.
use mathlib.Core.List.{append_assoc, append-nil}
use parlando.Common.{
  ℕ, ◌≤◌, ◌≡◌, refl, Bool, true, false, List, [], ◌∷◌, ◌++◌, some, All, All-append, if◌then◌else◌,
  arith, Bool-cases, inl, inr, ap, sym, ◌∙◌,
}
use parlando.Runtime.Speech.{
  Characters, TimedCharacter, Kind, word, punctuation, SpokenToken, new_token, extend_last,
  continues_word, take_character, tokens_from, alignment_tokens,
}

module _ {C : Characters} where
  -- What tokens spell, and the characters that are spoken or written, without the white space.
  abbrev pub text_of : List (SpokenToken C) → List C.Character
  text_of [] = []
  text_of (token ∷ tokens) = token.text ++ text_of tokens

  abbrev pub visible : List (TimedCharacter C) → List C.Character
  visible [] = []
  visible (item ∷ items) =
      let rest = visible items in
      if C.is_whitespace item.character then rest else item.character ∷ rest

  abbrev pub IsForward : SpokenToken C → Type 0
  IsForward token = token.start_time_ms ≤ token.end_time_ms

  abbrev pub IsTimed : TimedCharacter C → Type 0
  IsTimed item = item.start_ms ≤ item.end_ms

  text_of-append : (xs ys : List (SpokenToken C)) → text_of (xs ++ ys) ≡ text_of xs ++ text_of ys
  text_of-append [] ys = refl
  text_of-append (x ∷ xs) ys =
      ap (λ (cs : List C.Character). x.text ++ cs) (text_of-append xs ys)
      ∙ sym (append_assoc x.text (text_of xs) (text_of ys))

  abbrev pub is_started : List (SpokenToken C) → Bool
  is_started [] = false
  is_started (_ ∷ _) = true

  -- The tokens after one more character that is spelt.
  record IsSpelt (tokens : List (SpokenToken C)) (item : TimedCharacter C)
      (out : List (SpokenToken C)) : Type 0 where
    spells : text_of out ≡ text_of tokens ++ item.character ∷ []
    forward : All IsForward out
    started : is_started out ≡ true

  started_append :
      (xs : List (SpokenToken C)) (y : SpokenToken C) → is_started (xs ++ y ∷ []) ≡ true
  started_append [] y = refl
  started_append (x ∷ xs) y = refl

  new_token-IsSpelt :
      (tokens : List (SpokenToken C)) (kind : Kind) (item : TimedCharacter C) (stop : ℕ)
      → All IsForward tokens
      → item.start_ms ≤ stop
      → IsSpelt tokens item (tokens ++ new_token kind item stop ∷ [])
  new_token-IsSpelt tokens kind item stop f timed = record {
    spells = text_of-append tokens (new_token kind item stop ∷ []);
    forward = All-append IsForward tokens (new_token kind item stop ∷ []) f (timed, tt);
    started = started_append tokens (new_token kind item stop);
  }

  extend_last-IsSpelt :
      (item : TimedCharacter C) (token : SpokenToken C) (rest : List (SpokenToken C))
      → All IsForward (token ∷ rest)
      → (out : List (SpokenToken C)) × (extend_last item (token ∷ rest) ≡ some out)
        × IsSpelt (token ∷ rest) item out
  unfolding extend_last
  extend_last-IsSpelt item token [] f = (
    _,
    refl,
    record {
      spells =
          append-nil _
          ∙ ap (λ (cs : List C.Character). cs ++ item.character ∷ []) (sym (append-nil token.text));
      forward = (omega (arith, f.0), tt);
      started = refl;
    },
  )
  extend_last-IsSpelt item token (other ∷ rest) f =
      let (out, e, spelt) = extend_last-IsSpelt item other rest f.1 in
      (
        token ∷ out,
        rw e,
        record {
          spells =
              ap (λ (cs : List C.Character). token.text ++ cs) spelt.spells
              ∙ sym (append_assoc token.text (text_of (other ∷ rest)) (item.character ∷ []));
          forward = (f.0, spelt.forward);
          started = refl;
        },
      )

  -- The tokens of a speech, those so far given.
  record IsSpeech (tokens : List (SpokenToken C)) (items : List (TimedCharacter C))
      (out : List (SpokenToken C)) : Type 0 where
    spells : text_of out ≡ text_of tokens ++ visible items
    forward : All IsForward out

  abbrev Spoken : List (SpokenToken C) → Bool → List (TimedCharacter C) → Type 0
  Spoken tokens in_word items =
      (out : List (SpokenToken C)) × (tokens_from tokens in_word items ≡ some out)
      × IsSpeech tokens items out

  -- A character that is spelt, and the speech that follows it.
  spelt-Spoken :
      (tokens next : List (SpokenToken C)) (in_word goes_on : Bool) (item : TimedCharacter C)
      (rest : List (TimedCharacter C))
      → C.is_whitespace item.character ≡ false
      → take_character tokens in_word item rest ≡ (some next, goes_on)
      → IsSpelt tokens item next
      → Spoken next goes_on rest
      → Spoken tokens in_word (item ∷ rest)
  unfolding tokens_from
  spelt-Spoken tokens next in_word goes_on item rest dark taken spelt (out, e, speech) = (
    out,
    rw taken e,
    record {
      spells =
          speech.spells
          ∙ ap (λ (cs : List C.Character). cs ++ visible rest) spelt.spells
          ∙ append_assoc (text_of tokens) (item.character ∷ []) (visible rest)
          ∙ ap (λ (cs : List C.Character). text_of tokens ++ cs) (ground (arith, dark));
      forward = speech.forward;
    },
  )

  extended :
      (item : TimedCharacter C) (tokens : List (SpokenToken C))
      → All IsForward tokens
      → is_started tokens ≡ true
      → (out : List (SpokenToken C)) × (extend_last item tokens ≡ some out)
        × IsSpelt tokens item out
  extended item [] f s = cc
  extended item (token ∷ rest) f s = extend_last-IsSpelt item token rest f

  taken_inside :
      (tokens out : List (SpokenToken C)) (in_word : Bool) (item : TimedCharacter C)
      (rest : List (TimedCharacter C))
      → C.is_whitespace item.character ≡ false
      → continues_word in_word item rest ≡ true
      → in_word ≡ true
      → extend_last item tokens ≡ some out
      → take_character tokens in_word item rest ≡ (some out, true)
  unfolding take_character
  taken_inside tokens out in_word item rest dark letter inside e = rw (dark, letter, inside, e)

  taken_outside :
      (tokens : List (SpokenToken C)) (in_word : Bool) (item : TimedCharacter C)
      (rest : List (TimedCharacter C))
      → C.is_whitespace item.character ≡ false
      → continues_word in_word item rest ≡ true
      → in_word ≡ false
      → take_character tokens in_word item rest
        ≡ (some (tokens ++ new_token word item item.end_ms ∷ []), true)
  unfolding take_character
  taken_outside tokens in_word item rest dark letter outside = rw (dark, letter, outside)

  tokens_from-Spoken :
      (items : List (TimedCharacter C)) (tokens : List (SpokenToken C)) (in_word : Bool)
      → All IsForward tokens
      → (in_word ≡ true → is_started tokens ≡ true)
      → All IsTimed items
      → Spoken tokens in_word items
  unfolding tokens_from take_character
  tokens_from-Spoken [] tokens in_word f s timed =
      (tokens, refl, record { spells = sym (append-nil (text_of tokens)); forward = f })
  tokens_from-Spoken (item ∷ rest) tokens in_word f s timed =
      elim (Bool-cases (C.is_whitespace item.character)) [
        | inl white ↦
            let (out, e, speech) = tokens_from-Spoken rest tokens false f (λ h. cc) timed.1 in
            (
              out,
              rw white e,
              record {
                spells =
                    speech.spells
                    ∙ ap (λ (cs : List C.Character). text_of tokens ++ cs) (ground (arith, white));
                forward = speech.forward;
              },
            )
        | inr dark ↦ elim (Bool-cases (continues_word in_word item rest)) [
          | inr mark ↦
              let spelt = new_token-IsSpelt tokens punctuation item item.start_ms f (omega arith) in
              spelt-Spoken tokens _ in_word false item rest dark (rw (dark, mark)) spelt
                (tokens_from-Spoken rest _ false spelt.forward (λ h. cc) timed.1)
          | inl letter ↦ elim (Bool-cases in_word) [
            | inl inside ↦
                let (out, e, spelt) = extended item tokens f (s inside) in
                spelt-Spoken tokens out in_word true item rest dark
                  (taken_inside tokens out in_word item rest dark letter inside e) spelt
                  (tokens_from-Spoken rest out true spelt.forward (λ h. spelt.started) timed.1)
            | inr outside ↦
                let spelt = new_token-IsSpelt tokens word item item.end_ms f timed.0 in
                spelt-Spoken tokens _ in_word true item rest dark
                  (taken_outside tokens in_word item rest dark letter outside) spelt
                  (tokens_from-Spoken rest _ true spelt.forward (λ h. spelt.started) timed.1)
          ]
        ]
      ]

  -- The tokens of aligned characters are there, spell exactly the characters that are no white space,
  -- in order, and run forward in time where the characters do.
  pub alignment_tokens-text_of :
      (items : List (TimedCharacter C))
      → All IsTimed items
      → (out : List (SpokenToken C)) × (alignment_tokens items ≡ some out)
        × (text_of out ≡ visible items)
        × All IsForward out
  unfolding alignment_tokens
  alignment_tokens-text_of items timed =
      let (out, e, speech) = tokens_from-Spoken items [] false tt (λ h. cc) timed in
      (out, e, speech.spells, speech.forward)
