-- ===== src/TextChunk/Sentences/Ascii.antt =====
-- chunker.go: the sentences of a text in plain ASCII.
use claw_hermes_ai_go.Base.{
  ℕ, ◌≤◌, ◌<◌, ◌≢◌, ◌≡◌, refl, ◌∙◌, ap, true, false, [], ◌∷◌, ◌++◌, if◌then◌else◌, length,
  length-append, arith, All, Bool-cases, inl, inr,
}
use claw_hermes_ai_go.TextChunk.Runes.{Bytes, Rune, runes, runes-nil, runes-ascii}
use claw_hermes_ai_go.TextChunk.Sentences.{
  is_latin_char, ends_ideographic, ends_latin, Splitter, feed, feed_all, nonempty, split_sentences,
}

-- An ASCII byte other than a line feed.
abbrev pub IsPlain : ℕ → Type 0
IsPlain b = (b < 128) × (b ≢ 10)

latin_end_never_latin : (r : ℕ) → ends_latin r ≡ true → is_latin_char r ≡ false
unfolding ends_latin is_latin_char
latin_end_never_latin r h = ground arith

ascii_not_ideographic : (r : ℕ) → r < 128 → ends_ideographic r ≡ false
unfolding ends_ideographic
ascii_not_ideographic r h = ground arith

feed-plain : (s : Splitter) (r : Rune) → IsPlain r.code → (feed s r).sentences ≡ s.sentences
unfolding feed
feed-plain s r h = ground (arith, latin_end_never_latin r.code, ascii_not_ideographic r.code h.0)

feed_all-plain :
    (s : Splitter) (text : Bytes)
    → All IsPlain text
    → (feed_all s (runes text)).sentences ≡ s.sentences
unfolding feed_all
feed_all-plain s [] h = rw runes-nil refl
feed_all-plain s (b ∷ bs) h = rw (runes-ascii b bs h.0.0) (
    feed_all-plain (feed s (record { code = b; bytes = b ∷ [] })) bs h.1
    ∙ feed-plain s (record { code = b; bytes = b ∷ [] }) h.0)

-- A text in plain ASCII is at most one sentence, however many full stops, exclamation marks and
-- question marks it has: each is asked whether it is itself a Latin character, and none is.
pub plain_one_sentence : (text : Bytes) → All IsPlain text → length (split_sentences text) ≤ 1
plain_one_sentence text h =
    unfold split_sentences in
    at_most_one (feed_all (record { sentences = []; current = [] }) (runes text))
      (feed_all-plain (record { sentences = []; current = [] }) text h)
  where
    at_most_one :
        (s : Splitter)
        → s.sentences ≡ []
        → length (if nonempty s.current then s.sentences ++ s.current ∷ [] else s.sentences) ≤ 1
    at_most_one s e = elim (Bool-cases (nonempty s.current)) [
      | inl left ↦ rw left (omega (arith, length-append s.sentences (s.current ∷ []), ap length e))
      | inr left ↦ rw left (omega (arith, ap length e))
    ]
