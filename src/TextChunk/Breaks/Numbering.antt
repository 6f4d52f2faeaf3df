-- ===== src/TextChunk/Breaks/Numbering.antt =====
-- chunker.go: the loop of `ChunkBySemanticBreaks` on enough fuel, and the numbers of its chunks.
use claw_hermes_ai_go.Base.{
  ℕ, zero, suc, ◌+◌, ◌-◌, ◌≤◌, ◌<◌, ◌≡◌, refl, ◌&&◌, some, List, [], ◌∷◌, ltb, arith, length, drop,
  take, length-drop, All, All-append, Bool-cases, Option-cases, inl, inr,
}
use claw_hermes_ai_go.TextChunk.Runes.{Bytes}
use claw_hermes_ai_go.TextChunk.Windows.{Chunker, TextChunk}
use claw_hermes_ai_go.TextChunk.Windows.Numbering.{Numbered, Numbered-append}
use claw_hermes_ai_go.TextChunk.Breaks.{
  index_of, has_prefix, Cutter, emit, break_loop, over_breaks, breaks, chunk_by_semantic_breaks,
}

index_of-le : (s sep : Bytes) (i : ℕ) → index_of s sep ≡ some i → i ≤ length s
unfolding index_of
index_of-le [] sep i e = ground (arith, e)
index_of-le (b ∷ bs) sep i e = elim (Bool-cases (has_prefix (b ∷ bs) sep)) [
  | inl here ↦ (let z : i ≡ 0 = ground (arith, e, here) in omega (arith, z))
  | inr later ↦ elim (Option-cases (index_of bs sep)) [
    | inl absent ↦ ground (arith, e, later, absent)
    | inr (j, found) ↦ ground (arith, e, later, found, index_of-le bs sep j found)
  ]
]

module _ (c : Chunker) (text sep : Bytes) where
  -- Once the loop over one separator has more rounds than bytes are left behind its start, another
  -- round changes nothing.
  pub break_loop-enough :
      (fuel : ℕ) (s : Cutter)
      → length text - s.start < fuel
      → break_loop (suc fuel) c text sep s ≡ break_loop fuel c text sep s
  unfolding break_loop
  break_loop-enough zero s h = absurd (omega arith)
  break_loop-enough (suc fuel) s h = elim (Option-cases (index_of (drop s.start text) sep)) [
    | inl absent ↦ rw (absent, break_loop) refl
    | inr (i, found) ↦
        rw (found, break_loop)
          (elim (Bool-cases (ltb 0 i && ltb c.min_chunk_size i)) [
            | inr small ↦ rw small refl
            | inl cuts ↦ rw cuts (
                break_loop-enough fuel
                  (record {
                    chunks = emit text (take i (drop s.start text)) s.chunks;
                    start = s.start + i + length sep;
                  })
                  (less i (index_of-le (drop s.start text) sep i found) (ground (arith, cuts))))
          ])
  ]
    where
      less :
          (i : ℕ)
          → i ≤ length (drop s.start text)
          → 0 < i
          → length text - (s.start + i + length sep) < fuel
      less i le pos = omega (arith, length-drop s.start text, le, pos, h)

abbrev pub FromText : Bytes → TextChunk → Type 0
FromText text k = k.source_text ≡ text

-- Chunks that are numbered from 0 and name the text.
abbrev pub AreCut : Bytes → List TextChunk → Type 0
AreCut text chunks = Numbered 0 chunks × All (FromText text) chunks

emit-AreCut :
    (text content : Bytes) (chunks : List TextChunk)
    → AreCut text chunks
    → AreCut text (emit text content chunks)
unfolding emit
emit-AreCut text content chunks h = (
  Numbered-append 0 chunks _ h.0 (omega arith),
  All-append (FromText text) chunks _ h.1 (refl, tt),
)

break_loop-AreCut :
    (fuel : ℕ) (c : Chunker) (text sep : Bytes) (s : Cutter)
    → AreCut text s.chunks
    → AreCut text (break_loop fuel c text sep s).chunks
unfolding break_loop
break_loop-AreCut zero c text sep s h = h
break_loop-AreCut (suc fuel) c text sep s h =
    elim (Option-cases (index_of (drop s.start text) sep)) [
      | inl absent ↦ rw (absent, break_loop) h
      | inr (i, found) ↦
          rw (found, break_loop)
            (elim (Bool-cases (ltb 0 i && ltb c.min_chunk_size i)) [
              | inr small ↦ rw small h
              | inl cuts ↦ rw cuts (
                  break_loop-AreCut fuel c text sep
                    (record {
                      chunks = emit text (take i (drop s.start text)) s.chunks;
                      start = s.start + i + length sep;
                    })
                    (emit-AreCut text (take i (drop s.start text)) s.chunks h))
            ])
    ]

over_breaks-AreCut :
    (c : Chunker) (text : Bytes) (seps : List Bytes) (s : Cutter)
    → AreCut text s.chunks
    → AreCut text (over_breaks c text seps s).chunks
unfolding over_breaks
over_breaks-AreCut c text [] s h = h
over_breaks-AreCut c text (sep ∷ seps) s h =
    over_breaks-AreCut c text seps (break_loop (length text + 1) c text sep s)
      (break_loop-AreCut (length text + 1) c text sep s h)

-- `ChunkBySemanticBreaks` numbers its chunks from 0 in order, and each names the text as its source.
pub semantic_breaks-AreCut :
    (c : Chunker) (text : Bytes) → AreCut text (chunk_by_semantic_breaks c text)
unfolding chunk_by_semantic_breaks
semantic_breaks-AreCut c text =
    let s : Cutter = over_breaks c text breaks (record { chunks = []; start = 0 }) in
    let h : AreCut text s.chunks = over_breaks-AreCut c text breaks _ (tt, tt) in
    elim (Bool-cases (ltb s.start (length text))) [
      | inl more ↦ rw more (emit-AreCut text (drop s.start text) s.chunks h)
      | inr over ↦ rw over h
    ]
