-- ===== src/TextChunk/Windows/Divergence.antt =====
-- chunker.go: the loop of `ChunkText` in the last window of a text.
use claw_hermes_ai_go.Base.{
  ℕ, zero, suc, ◌+◌, ◌-◌, ◌≤◌, ◌<◌, ◌≡◌, refl, ◌∙◌, List, [], ◌∷◌, ◌++◌, leb, length, drop,
  length-take, length-drop, arith, All, All-take, All-drop, le→leb, lt→not_leb, le→not_ltb,
  Bool-cases, ◌⊎◌, inl, inr,
}
use claw_hermes_ai_go.TextChunk.Runes.{Bytes}
use claw_hermes_ai_go.TextChunk.Sentences.Ascii.{IsPlain, plain_one_sentence}
use claw_hermes_ai_go.TextChunk.Windows.{
  Chunker, new_chunker, TextChunk, running, slice, find_chunk_boundary, end_position, chunk_loop,
  chunk_text,
}

pub length-slice : (text : Bytes) (s e : ℕ) → e ≤ length text → length (slice text s e) ≡ e - s
length-slice text s e h = omega (arith, length-take (e - s) (drop s text), length-drop s text)

-- The overlap is positive, at least the smallest chunk and at most the largest.
pub record HasOverlap (c : Chunker) : Type 0 where
  pub positive : 0 < c.overlap_size
  pub above_min : c.min_chunk_size ≤ c.overlap_size
  pub below_max : c.overlap_size ≤ c.max_chunk_size

module _ (c : Chunker) (text : Bytes) where
  boundary_of_end : (s e : ℕ) → length text ≤ e → find_chunk_boundary c text s e ≡ e
  unfolding find_chunk_boundary
  boundary_of_end s e h = rw (le→leb _ _ h) refl

  pub boundary_of_plain : (s e : ℕ) → All IsPlain text → find_chunk_boundary c text s e ≡ e
  unfolding find_chunk_boundary
  boundary_of_plain s e h = elim (Bool-cases (leb (length text) e)) [
    | inl last ↦ rw last refl
    | inr inner ↦
        rw
          (
            inner,
            le→leb _ _ (
                plain_one_sentence (slice text s e)
                  (All-take IsPlain (e - s) (drop s text) (All-drop IsPlain s text h))),
          )
          refl
  ]

  -- A round whose chunk is the whole window cuts it off and goes back by the overlap.
  cut_round :
      (fuel position end : ℕ) (chunks : List TextChunk)
      → end_position c text position ≡ end
      → find_chunk_boundary c text position end ≡ end
      → position < length text
      → end ≤ length text
      → position ≤ end
      → c.min_chunk_size ≤ end - position
      → chunk_loop (suc fuel) c text position chunks
        ≡ chunk_loop fuel c text (end - c.overlap_size) (
            chunks
            ++ record {
              content = slice text position end;
              index = length chunks;
              source_text = text;
            }
              ∷ [])
  unfolding chunk_loop
  cut_round fuel position end chunks e b inside fits forward big =
      rw
        (
          e,
          b,
          lt→not_leb _ _ inside,
          le→not_ltb _ _ fits,
          le→not_ltb _ _ forward,
          length-slice text position end fits,
          le→not_ltb _ _ big,
        )
        refl

  end_cases :
      (position : ℕ)
      → (end_position c text position ≤ length text)
        × (end_position c text position ≤ position + c.max_chunk_size)
        × ((end_position c text position ≡ length text)
            ⊎ (end_position c text position ≡ position + c.max_chunk_size))
  unfolding end_position
  end_cases position = ground arith

  -- From a position that leaves at least the overlap, the loop never ends, where every boundary is
  -- the end of its window.
  loop_runs_on :
      HasOverlap c
      → ((s e : ℕ) → find_chunk_boundary c text s e ≡ e)
      → (fuel position : ℕ) (chunks : List TextChunk) → position + c.overlap_size ≤ length text
      → chunk_loop fuel c text position chunks ≡ running
  loop_runs_on o b zero position chunks h = unfold chunk_loop in refl
  loop_runs_on o b (suc fuel) position chunks h =
      let ends = end_cases position in
      cut_round fuel position (end_position c text position) chunks refl (b _ _) (omega arith)
        ends.0 (omega arith) (omega arith)
      ∙ loop_runs_on o b fuel (end_position c text position - c.overlap_size) _ (omega arith)

  -- If the overlap is positive, at least the smallest and at most the largest chunk size, then from a
  -- position in the last window that leaves at least the overlap the loop is still running after any
  -- number of rounds, for any text.
  pub last_window_runs_on :
      HasOverlap c
      → (fuel position : ℕ) (chunks : List TextChunk) → position + c.overlap_size ≤ length text
      → length text ≤ position + c.max_chunk_size
      → chunk_loop fuel c text position chunks ≡ running
  last_window_runs_on o zero position chunks h last = unfold chunk_loop in refl
  last_window_runs_on o (suc fuel) position chunks h last =
      let ends = end_cases position in
      let at_end : end_position c text position ≡ length text = omega arith in
      cut_round fuel position (length text) chunks at_end (boundary_of_end _ _ (omega arith))
        (omega arith) (omega arith) (omega arith) (omega arith)
      ∙ last_window_runs_on o fuel (length text - c.overlap_size) _ (omega arith) (omega arith)

  -- If the overlap is positive, at least the smallest and at most the largest chunk size, then on every
  -- plain ASCII text without a line feed that is longer than the largest chunk size `ChunkText` is
  -- still running after any number of rounds.
  pub chunk_text_never_ends :
      HasOverlap c
      → All IsPlain text
      → c.max_chunk_size < length text
      → (fuel : ℕ) → chunk_text fuel c text ≡ running
  unfolding chunk_text
  chunk_text_never_ends o plain long fuel =
      rw (lt→not_leb _ _ long)
        (loop_runs_on o (λ s e. boundary_of_plain s e plain) fuel 0 [] (omega arith))

pub new_chunker-HasOverlap : HasOverlap new_chunker
new_chunker-HasOverlap = omega arith
