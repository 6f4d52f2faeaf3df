-- ===== src/TextChunk/Paragraphs/Tests.antt =====
-- chunker.go: `ChunkByParagraphs` on a text of two paragraphs.
use claw_hermes_ai_go.Base.{[], ◌∷◌, All}
use claw_hermes_ai_go.TextChunk.Runes.{Bytes}
use claw_hermes_ai_go.TextChunk.Windows.{Chunker}
use claw_hermes_ai_go.TextChunk.Windows.Numbering.{Numbered}
use claw_hermes_ai_go.TextChunk.Paragraphs.{chunk_by_paragraphs}
use claw_hermes_ai_go.TextChunk.Paragraphs.Numbering.{IsParagraphs, chunk_by_paragraphs_chunks}

abbrev chunker : Chunker
chunker = record { max_chunk_size = 3; overlap_size = 1; min_chunk_size = 1 }

-- "ab", an empty line and "cd".
abbrev two_paragraphs : Bytes
two_paragraphs = 97 ∷ 98 ∷ 10 ∷ 10 ∷ 99 ∷ 100 ∷ []

chunk_by_paragraphs_chunks_example :
    Numbered 0 (chunk_by_paragraphs chunker two_paragraphs)
    × All (IsParagraphs chunker two_paragraphs) (chunk_by_paragraphs chunker two_paragraphs)
chunk_by_paragraphs_chunks_example = chunk_by_paragraphs_chunks chunker two_paragraphs
