-- ===== src/TextChunk/Sentences/Tests.antt =====
-- chunker.go: the sentences of a short text.
use claw_hermes_ai_go.Base.{[], ◌∷◌, arith, All}
use claw_hermes_ai_go.TextChunk.Runes.{Bytes}
use claw_hermes_ai_go.TextChunk.Sentences.Ascii.{IsPlain}

-- "a. b!"
abbrev two_stops : Bytes
two_stops = 97 ∷ 46 ∷ 32 ∷ 98 ∷ 33 ∷ []

two_stops-IsPlain : All IsPlain two_stops
two_stops-IsPlain = (
  (omega arith, λ e. omega (arith, e)),
  (
    (omega arith, λ e. omega (arith, e)),
    (
      (omega arith, λ e. omega (arith, e)),
      ((omega arith, λ e. omega (arith, e)), ((omega arith, λ e. omega (arith, e)), tt)),
    ),
  ),
)
