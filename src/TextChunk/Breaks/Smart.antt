-- ===== src/TextChunk/Breaks/Smart.antt =====
-- internal/textchunk/chunker.go: `SmartChunk`. The fuel is that of each call of `ChunkText`; where one
-- is still running or panics, so does the whole.
use claw_hermes_ai_go.Base.{ℕ, List, [], ◌∷◌, ◌++◌, ltb, ◌==◌, if◌then◌else◌, length}
use claw_hermes_ai_go.TextChunk.Runes.{Bytes}
use claw_hermes_ai_go.TextChunk.Windows.{
  Chunker, TextChunk, Outcome, done, panics, running, chunk_text,
}
use claw_hermes_ai_go.TextChunk.Paragraphs.{chunk_by_paragraphs}
use claw_hermes_ai_go.TextChunk.Breaks.{chunk_by_semantic_breaks}

-- The inner loop: the pieces of a paragraph are numbered anew.
pub append_pieces : Bytes → List TextChunk → List TextChunk → List TextChunk
append_pieces text final [] = final
append_pieces text final (sub ∷ subs) =
    append_pieces text
      (final ++ record { content = sub.content; index = length final; source_text = text } ∷ [])
      subs

-- The loop over the paragraphs.
pub refine : ℕ → Chunker → Bytes → List TextChunk → List TextChunk → Outcome
refine fuel c text final [] = done final
refine fuel c text final (para ∷ paras) =
    let kept = refine fuel c text (final ++ para ∷ []) paras in
    let split : Outcome = elim (chunk_text fuel c para.content) [
      | done subs ↦ refine fuel c text (append_pieces text final subs) paras
      | panics ↦ panics
      | running ↦ running
    ] in
    if ltb c.max_chunk_size (length para.content) then split else kept

-- The branch for a text that is one paragraph.
pub by_sentences : Chunker → Bytes → Outcome → Outcome
by_sentences c text panics = panics
by_sentences c text running = running
by_sentences c text (done sentences) =
    if length sentences == 1 then done (chunk_by_semantic_breaks c text) else done sentences

pub smart_chunk : ℕ → Chunker → Bytes → Outcome
smart_chunk fuel c text =
    if length (chunk_by_paragraphs c text) == 1
    then by_sentences c text (chunk_text fuel c text)
    else refine fuel c text [] (chunk_by_paragraphs c text)
