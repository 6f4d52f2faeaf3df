-- ===== src/TextChunk/Breaks/Tests.antt =====
-- chunker.go: `ChunkBySemanticBreaks` on two short paragraphs.
use claw_hermes_ai_go.Base.{[], ◌∷◌}
use claw_hermes_ai_go.TextChunk.Runes.{Bytes}
use claw_hermes_ai_go.TextChunk.Windows.{Chunker}
use claw_hermes_ai_go.TextChunk.Breaks.{Cutter}

abbrev chunker : Chunker
chunker = record { max_chunk_size = 8; overlap_size = 1; min_chunk_size = 1 }

-- "ab", an empty line and "cd".
abbrev two_parts : Bytes
two_parts = 97 ∷ 98 ∷ 10 ∷ 10 ∷ 99 ∷ 100 ∷ []

abbrev at_start : Cutter
at_start = record { chunks = []; start = 0 }
