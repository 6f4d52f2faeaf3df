-- ===== src/TextChunk/Paragraphs.antt =====
-- internal/textchunk/chunker.go: `ChunkByParagraphs`, which fills chunks with whole paragraphs.
pub mod Numbering
mod Tests
use claw_hermes_ai_go.Base.{
  ℕ, zero, suc, ◌+◌, Bool, true, false, ◌&&◌, List, [], ◌∷◌, ◌++◌, ltb, ◌==◌, if◌then◌else◌, length,
}
use claw_hermes_ai_go.TextChunk.Runes.{Bytes, trim_space}
use claw_hermes_ai_go.TextChunk.Windows.{Chunker, TextChunk}

-- `strings.Split(text, "\n")`; `line` holds the bytes of the line so far.
lines_from : Bytes → Bytes → List Bytes
lines_from line [] = line ∷ []
lines_from line (b ∷ bs) =
    let ended = line ∷ lines_from [] bs in
    let longer = lines_from (line ++ b ∷ []) bs in if b == 10 then ended else longer

pub split_lines : Bytes → List Bytes
split_lines text = lines_from [] text

pub record Filler : Type 0 where
  pub chunks : List TextChunk
  pub chunk_index : ℕ
  pub current_chunk : Bytes
  pub current_chunk_size : ℕ

-- `chunks = append(chunks, …)`
emit : Bytes → Filler → List TextChunk
emit text f =
    f.chunks
    ++ record { content = trim_space f.current_chunk; index = f.chunk_index; source_text = text }
      ∷ []

make_room : Chunker → Bytes → ℕ → Filler → Filler
make_room c text size f =
    if ltb c.max_chunk_size (f.current_chunk_size + size) && ltb 0 f.current_chunk_size
    then record {
      chunks = emit text f;
      chunk_index = f.chunk_index + 1;
      current_chunk = [];
      current_chunk_size = 0;
    }
    else f

put_paragraph : Bytes → Filler → Filler
put_paragraph para f = record f {
  current_chunk = f.current_chunk ++ (para ++ 10 ∷ []);
  current_chunk_size = f.current_chunk_size + (length para + 1);
}

pub add_paragraph : Chunker → Bytes → Filler → Bytes → Filler
add_paragraph c text f line =
    let para = trim_space line in
    if length para == 0 then f else put_paragraph para (make_room c text (length para) f)

add_all : Chunker → Bytes → Filler → List Bytes → Filler
add_all c text f [] = f
add_all c text f (line ∷ lines) = add_all c text (add_paragraph c text f line) lines

abbrev empty_filler : Filler
empty_filler = record { chunks = []; chunk_index = 0; current_chunk = []; current_chunk_size = 0 }

pub chunk_by_paragraphs : Chunker → Bytes → List TextChunk
chunk_by_paragraphs c text =
    let f = add_all c text empty_filler (split_lines text) in
    if ltb 0 f.current_chunk_size then emit text f else f.chunks
