-- ===== src/TextChunk/Paragraphs/Numbering.antt =====
-- chunker.go: the numbers and sizes of the chunks of paragraphs.
use claw_hermes_ai_go.Base.{
  ℕ, ◌+◌, ◌≤◌, ◌<◌, ◌⊎◌, ◌≡◌, refl, ap, false, ◌&&◌, List, [], ◌∷◌, ◌++◌, ltb, ◌==◌, if◌then◌else◌,
  length, length-append, arith, All, All-append, Bool-cases, inl, inr,
}
use claw_hermes_ai_go.TextChunk.Runes.{Bytes, trim_space}
use claw_hermes_ai_go.TextChunk.Windows.{Chunker, TextChunk}
use claw_hermes_ai_go.TextChunk.Windows.Numbering.{Numbered, Numbered-append}
use claw_hermes_ai_go.TextChunk.Paragraphs.{
  Filler, emit, make_room, put_paragraph, add_paragraph, add_all, empty_filler, chunk_by_paragraphs,
  split_lines,
}

-- A buffer that may become a chunk: it is one paragraph, or it fits in the chunk size, each
-- paragraph counted with its line feed but the last.
abbrev pub IsFilled : Chunker → Bytes → Type 0
IsFilled c buffer =
    (length buffer ≤ c.max_chunk_size + 1)
    ⊎ ((line : Bytes) × (buffer ≡ trim_space line ++ 10 ∷ []))

-- A chunk is such a buffer, trimmed.
abbrev pub IsParagraphs : Chunker → Bytes → TextChunk → Type 0
IsParagraphs c text k =
    (k.source_text ≡ text)
    × ((buffer : Bytes) × (0 < length buffer) × IsFilled c buffer × (k.content ≡ trim_space buffer))

record IsSound (c : Chunker) (text : Bytes) (f : Filler) : Type 0 where
  numbered : Numbered 0 f.chunks
  counted : f.chunk_index ≡ length f.chunks
  sized : f.current_chunk_size ≡ length f.current_chunk
  filled : IsFilled c f.current_chunk
  paragraphs : All (IsParagraphs c text) f.chunks

nil_of_length : (b : Bytes) → length b ≡ 0 → b ≡ []
nil_of_length [] h = refl
nil_of_length (x ∷ b) h = absurd (omega arith)

module _ (c : Chunker) (text : Bytes) where
  emit-Numbered : (f : Filler) → IsSound c text f → Numbered 0 (emit text f)
  unfolding emit
  emit-Numbered f h = Numbered-append 0 f.chunks _ h.numbered (omega (arith, h.counted))

  emit-IsParagraphs :
      (f : Filler)
      → IsSound c text f
      → 0 < f.current_chunk_size
      → All (IsParagraphs c text) (emit text f)
  unfolding emit
  emit-IsParagraphs f h big =
      All-append (IsParagraphs c text) f.chunks _ h.paragraphs
        ((refl, (f.current_chunk, omega (arith, h.sized), h.filled, refl)), tt)

  length-emit : (f : Filler) → length (emit text f) ≡ length f.chunks + 1
  unfolding emit
  length-emit f = length-append f.chunks _

  -- The buffer is empty, or it has room for `size` more bytes.
  abbrev HasRoom : ℕ → Filler → Type 0
  HasRoom size f = (f.current_chunk ≡ []) ⊎ (length f.current_chunk + size ≤ c.max_chunk_size)

  make_room-IsSound :
      (size : ℕ) (f : Filler)
      → IsSound c text f
      → IsSound c text (make_room c text size f) × HasRoom size (make_room c text size f)
  unfolding make_room
  make_room-IsSound size f h =
      elim (Bool-cases
        (ltb c.max_chunk_size (f.current_chunk_size + size) && ltb 0 f.current_chunk_size)) [
          | inl over ↦ rw over (
            record {
              numbered = emit-Numbered f h;
              counted = omega (arith, h.counted, length-emit f);
              sized = refl;
              filled = inl (omega arith);
              paragraphs = emit-IsParagraphs f h (ground arith);
            },
            inl refl,
          )
          | inr fits ↦ rw fits (h, room fits)
        ]
    where
      room :
          (ltb c.max_chunk_size (f.current_chunk_size + size) && ltb 0 f.current_chunk_size) ≡ false
          → HasRoom size f
      room fits = elim (Bool-cases (ltb 0 f.current_chunk_size)) [
        | inl some_left ↦ inr (ground (arith, h.sized))
        | inr none_left ↦ inl (nil_of_length f.current_chunk (ground (arith, h.sized)))
      ]

  put_paragraph-IsSound :
      (line : Bytes) (f : Filler)
      → IsSound c text f
      → HasRoom (length (trim_space line)) f
      → IsSound c text (put_paragraph (trim_space line) f)
  unfolding put_paragraph
  put_paragraph-IsSound line f h room = record {
    numbered = h.numbered;
    counted = h.counted;
    sized = omega (
      arith,
      h.sized,
      length-append f.current_chunk (trim_space line ++ 10 ∷ []),
      length-append (trim_space line) (10 ∷ []),
    );
    filled = elim room [
      | inl empty ↦ inr (line, ap (λ b. b ++ (trim_space line ++ 10 ∷ [])) empty)
      | inr fits ↦ inl (
          omega (
            arith,
            length-append f.current_chunk (trim_space line ++ 10 ∷ []),
            length-append (trim_space line) (10 ∷ []),
          ))
    ];
    paragraphs = h.paragraphs;
  }

  add_paragraph-IsSound :
      (line : Bytes) (f : Filler) → IsSound c text f → IsSound c text (add_paragraph c text f line)
  unfolding add_paragraph
  add_paragraph-IsSound line f h = elim (Bool-cases (length (trim_space line) == 0)) [
    | inl blank ↦ rw blank h
    | inr full ↦
        let (sound, room) = make_room-IsSound (length (trim_space line)) f h in
        rw full (put_paragraph-IsSound line _ sound room)
  ]

  add_all-IsSound :
      (f : Filler) (lines : List Bytes) → IsSound c text f → IsSound c text (add_all c text f lines)
  unfolding add_all
  add_all-IsSound f [] h = h
  add_all-IsSound f (line ∷ lines) h =
      add_all-IsSound (add_paragraph c text f line) lines (add_paragraph-IsSound line f h)

  -- The chunks of `ChunkByParagraphs` are numbered from 0 in order and name the text as their source,
  -- and each is, trimmed, a nonempty run of paragraphs that are trimmed and end in line feeds: one
  -- paragraph alone, or at most the chunk size and one byte more, for the last line feed.
  pub chunk_by_paragraphs_chunks :
      Numbered 0 (chunk_by_paragraphs c text)
      × All (IsParagraphs c text) (chunk_by_paragraphs c text)
  unfolding chunk_by_paragraphs
  chunk_by_paragraphs_chunks = finish (add_all c text empty_filler (split_lines text)) final
    where
      final : IsSound c text (add_all c text empty_filler (split_lines text))
      final = add_all-IsSound empty_filler (split_lines text) (record {
        numbered = tt;
        counted = refl;
        sized = refl;
        filled = inl (omega arith);
        paragraphs = tt;
      })

      finish :
          (f : Filler)
          → IsSound c text f
          → Numbered 0 (if ltb 0 f.current_chunk_size then emit text f else f.chunks)
            × All
                (IsParagraphs c text)
                (if ltb 0 f.current_chunk_size then emit text f else f.chunks)
      finish f h = elim (Bool-cases (ltb 0 f.current_chunk_size)) [
        | inl left ↦ rw left (emit-Numbered f h, emit-IsParagraphs f h (ground arith))
        | inr left ↦ rw left (h.numbered, h.paragraphs)
      ]
