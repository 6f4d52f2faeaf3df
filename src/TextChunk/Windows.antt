-- ===== src/TextChunk/Windows.antt =====
-- internal/textchunk/chunker.go: `ChunkText`, which cuts a text at sentence ends with an overlap. The
-- logger is left out. The loop takes fuel: `running` is a loop that has not ended when the fuel is
-- used up, and `panics` a slice out of range.
pub mod Divergence
pub mod Numbering
mod Tests
use claw_hermes_ai_go.Base.{
  ℕ, zero, suc, ◌+◌, ◌-◌, ◌&&◌, ◌||◌, List, [], ◌∷◌, ◌++◌, leb, ltb, if◌then◌else◌, length, take,
  drop,
}
use claw_hermes_ai_go.TextChunk.Runes.{Bytes}
use claw_hermes_ai_go.TextChunk.Sentences.{split_sentences}

pub record Chunker : Type 0 where
  pub max_chunk_size : ℕ
  pub overlap_size : ℕ
  pub min_chunk_size : ℕ

abbrev pub new_chunker : Chunker
new_chunker = record { max_chunk_size = 1000; overlap_size = 200; min_chunk_size = 100 }

pub record TextChunk : Type 0 where
  pub content : Bytes
  pub index : ℕ
  pub source_text : Bytes

pub data Outcome : Type 0 where
  done : List TextChunk → Outcome
  panics : Outcome
  running : Outcome

-- `text[start:end]`, within the text.
abbrev pub slice : Bytes → ℕ → ℕ → Bytes
slice text start end = take (end - start) (drop start text)

-- The loop over the sentences in `findChunkBoundary`, at sentence number `i`.
boundary_loop : ℕ → ℕ → ℕ → ℕ → List Bytes → ℕ
boundary_loop max start accumulated i [] = start + accumulated
boundary_loop max start accumulated i (s ∷ rest) =
    let later = boundary_loop max start (accumulated + length s) (i + 1) rest in
    if ltb max (accumulated + length s) && ltb 0 i then start + accumulated else later

pub find_chunk_boundary : Chunker → Bytes → ℕ → ℕ → ℕ
find_chunk_boundary c text start end =
    if leb (length text) end
    then end
    else (let sentences = split_sentences (slice text start end) in
        if leb (length sentences) 1
        then end
        else boundary_loop c.max_chunk_size start 0 0 sentences)

pub end_position : Chunker → Bytes → ℕ → ℕ
end_position c text position =
    if ltb (length text) (position + c.max_chunk_size)
    then length text
    else position + c.max_chunk_size

-- The loop of `ChunkText`; `-` stops at 0, as the code's own reset does.
pub chunk_loop : ℕ → Chunker → Bytes → ℕ → List TextChunk → Outcome
chunk_loop zero c text position chunks = running
chunk_loop (suc fuel) c text position chunks =
    let end = end_position c text position in
    let chunk = find_chunk_boundary c text position end in
    let content = slice text position chunk in
    let skipped = chunk_loop fuel c text end chunks in
    let cut =
      chunk_loop fuel c text (chunk - c.overlap_size)
        (chunks ++ record { content = content; index = length chunks; source_text = text } ∷ []) in
    if leb (length text) position
    then done chunks
    else if ltb (length text) chunk || ltb chunk position
    then panics
    else if ltb (length content) c.min_chunk_size
    then skipped
    else cut

pub chunk_text : ℕ → Chunker → Bytes → Outcome
chunk_text fuel c text =
    if leb (length text) c.max_chunk_size
    then done (record { content = text; index = 0; source_text = text } ∷ [])
    else chunk_loop fuel c text 0 []
