-- ===== src/Memory/Matching.antt =====
-- internal/memory/short_term.go: the case-insensitive match of a query. `toLower` makes one rune for
-- each byte, so a rune of several bytes is followed by NULs; a query is padded in the same way.
use claw_hermes_ai_go.Base.{
  ℕ, zero, suc, ◌+◌, ◌-◌, Bool, true, false, ◌&&◌, ◌||◌, List, [], ◌∷◌, ◌++◌, leb, ltb, ◌==◌,
  if◌then◌else◌, length,
}
use claw_hermes_ai_go.TextChunk.Runes.{Bytes, Rune, runes, encoded}

nuls : ℕ → Bytes
nuls zero = []
nuls (suc n) = 0 ∷ nuls n

lowered : Rune → Bytes
lowered r = if leb 65 r.code && leb r.code 90 then (r.code + 32) ∷ [] else encoded r

lower_all : List Rune → Bytes
lower_all [] = []
lower_all (r ∷ rs) = lowered r ++ (nuls (length r.bytes - 1) ++ lower_all rs)

pub to_lower : Bytes → Bytes
to_lower s = lower_all (runes s)

-- The inner loop: the substring stands at the start.
stands_at : Bytes → Bytes → Bool
stands_at s [] = true
stands_at [] (b ∷ bs) = false
stands_at (a ∷ s) (b ∷ bs) = a == b && stands_at s bs

pub contains_substring : Bytes → Bytes → Bool
unfolding stands_at
contains_substring [] substr = stands_at [] substr
contains_substring (a ∷ s) substr = stands_at (a ∷ s) substr || contains_substring s substr

same_bytes : Bytes → Bytes → Bool
same_bytes s t = length s == length t && stands_at s t

pub contains : Bytes → Bytes → Bool
unfolding same_bytes
contains s substr =
    let s' = to_lower s in
    let substr' = to_lower substr in
    leb (length substr') (length s')
    && (same_bytes s' substr'
        || (ltb (length substr') (length s') && contains_substring s' substr'))
