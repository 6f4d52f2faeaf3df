-- ===== src/TextChunk/Windows/Tests.antt =====
-- chunker.go: `ChunkText` on a text of five bytes, cut by four.
use claw_hermes_ai_go.Base.{◌≡◌, List, [], ◌∷◌, arith, All}
use claw_hermes_ai_go.TextChunk.Runes.{Bytes}
use claw_hermes_ai_go.TextChunk.Sentences.Ascii.{IsPlain}
use claw_hermes_ai_go.TextChunk.Windows.{
  Chunker, TextChunk, done, running, chunk_loop, chunk_text, end_position,
}
use claw_hermes_ai_go.TextChunk.Windows.Divergence.{
  HasOverlap, chunk_text_never_ends, boundary_of_plain,
}

abbrev five_bytes : Bytes
five_bytes = 97 ∷ 98 ∷ 99 ∷ 100 ∷ 101 ∷ []

five_bytes-IsPlain : All IsPlain five_bytes
five_bytes-IsPlain = (
  (omega arith, λ e. omega (arith, e)),
  (
    (omega arith, λ e. omega (arith, e)),
    (
      (omega arith, λ e. omega (arith, e)),
      ((omega arith, λ e. omega (arith, e)), ((omega arith, λ e. omega (arith, e)), tt)),
    ),
  ),
)

-- The overlap is the smallest chunk in the first, and below it in the second.
abbrev overlapping : Chunker
overlapping = record { max_chunk_size = 4; overlap_size = 2; min_chunk_size = 2 }

abbrev apart : Chunker
apart = record { max_chunk_size = 4; overlap_size = 1; min_chunk_size = 3 }

overlapping-HasOverlap : HasOverlap overlapping
overlapping-HasOverlap = record {
  positive = omega arith;
  above_min = omega arith;
  below_max = omega arith;
}

chunk_text_never_ends_example : chunk_text 9 overlapping five_bytes ≡ running
chunk_text_never_ends_example =
    chunk_text_never_ends overlapping five_bytes overlapping-HasOverlap five_bytes-IsPlain
      (omega arith) 9

-- The last two bytes stand in no chunk.
abbrev first_four : List TextChunk
first_four = record { content = 97 ∷ 98 ∷ 99 ∷ 100 ∷ []; index = 0; source_text = five_bytes } ∷ []

ends_apart : chunk_text 4 apart five_bytes ≡ done first_four
unfolding chunk_text chunk_loop end_position
ends_apart = simp (
  boundary_of_plain apart five_bytes 0 4 five_bytes-IsPlain,
  boundary_of_plain apart five_bytes 3 5 five_bytes-IsPlain,
  boundary_of_plain apart five_bytes 4 5 five_bytes-IsPlain,
)
