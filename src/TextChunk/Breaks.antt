-- ===== src/TextChunk/Breaks.antt =====
-- internal/textchunk/chunker.go: `ChunkBySemanticBreaks`, which cuts a text at separators. The inner
-- loop runs on fuel: `length text + 1` rounds.
pub mod Searching
pub mod Numbering
pub mod Smart
mod Tests
use claw_hermes_ai_go.Base.{
  ℕ, zero, suc, ◌+◌, Bool, true, false, ◌&&◌, Option, none, some, List, [], ◌∷◌, ◌++◌, ltb, ◌==◌,
  if◌then◌else◌, length, drop, take,
}
use claw_hermes_ai_go.TextChunk.Runes.{Bytes, trim_space}
use claw_hermes_ai_go.TextChunk.Windows.{Chunker, TextChunk}

unfoldable pub has_prefix : Bytes → Bytes → Bool
has_prefix s [] = true
has_prefix [] (b ∷ bs) = false
has_prefix (a ∷ s) (b ∷ bs) = a == b && has_prefix s bs

-- `strings.Index`, without the -1.
unfoldable pub index_of : Bytes → Bytes → Option ℕ
unfolding has_prefix
index_of [] sep = if has_prefix [] sep then some 0 else none
index_of (b ∷ bs) sep =
    let later = index_of bs sep in
    if has_prefix (b ∷ bs) sep then some 0 else elim later [ none ↦ none | some i ↦ some (i + 1) ]

repeated : ℕ → ℕ → Bytes
repeated b zero = []
repeated b (suc n) = b ∷ repeated b n

-- Two line feeds, and lines of 40 dashes and of 40, 33 and 38 equals signs.
breaks : List Bytes
unfolding repeated
breaks =
    (10 ∷ 10 ∷ []) ∷ repeated b'-' 40 ∷ repeated b'=' 40 ∷ repeated b'=' 33 ∷ repeated b'=' 38 ∷ []

pub record Cutter : Type 0 where
  pub chunks : List TextChunk
  pub start : ℕ

-- `chunks = append(chunks, …)`
pub emit : Bytes → Bytes → List TextChunk → List TextChunk
emit text content chunks =
    chunks
    ++ record { content = trim_space content; index = length chunks; source_text = text } ∷ []

-- The inner loop, for one separator.
pub break_loop : ℕ → Chunker → Bytes → Bytes → Cutter → Cutter
break_loop zero c text sep s = s
break_loop (suc fuel) c text sep s = elim (index_of (drop s.start text) sep) [
  | none ↦ s
  | some i ↦
      let cut = break_loop fuel c text sep (record {
        chunks = emit text (take i (drop s.start text)) s.chunks;
        start = s.start + i + length sep;
      }) in
      if ltb 0 i && ltb c.min_chunk_size i then cut else s
]

-- The outer loop, over the separators.
pub over_breaks : Chunker → Bytes → List Bytes → Cutter → Cutter
over_breaks c text [] s = s
over_breaks c text (sep ∷ seps) s =
    over_breaks c text seps (break_loop (length text + 1) c text sep s)

pub chunk_by_semantic_breaks : Chunker → Bytes → List TextChunk
chunk_by_semantic_breaks c text =
    let s = over_breaks c text breaks (record { chunks = []; start = 0 }) in
    if ltb s.start (length text) then emit text (drop s.start text) s.chunks else s.chunks
