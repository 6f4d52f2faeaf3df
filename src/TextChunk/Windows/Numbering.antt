-- ===== src/TextChunk/Windows/Numbering.antt =====
-- chunker.go: chunks that carry consecutive numbers.
use claw_hermes_ai_go.Base.{ℕ, ◌+◌, ◌≡◌, List, [], ◌∷◌, ◌++◌, length, arith}
use claw_hermes_ai_go.TextChunk.Windows.{TextChunk}

-- The chunks carry the numbers from `n` on.
abbrev pub Numbered : ℕ → List TextChunk → Type 0
Numbered n [] = Unit
Numbered n (c ∷ cs) = (c.index ≡ n) × Numbered (n + 1) cs

pub Numbered-append :
    (n : ℕ) (cs : List TextChunk) (c : TextChunk)
    → Numbered n cs
    → c.index ≡ n + length cs
    → Numbered n (cs ++ c ∷ [])
Numbered-append n [] c h e = (omega arith, tt)
Numbered-append n (d ∷ cs) c h e = (h.0, Numbered-append (n + 1) cs c h.1 (omega arith))
