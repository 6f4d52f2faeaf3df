-- ===== src/TextChunk/Sentences.antt =====
-- internal/textchunk/chunker.go: the splitting of a text into sentences. `isLatinChar` is asked only
-- of a full stop, an exclamation mark or a question mark.
pub mod Ascii
mod Tests
use claw_hermes_ai_go.Base.{
  ℕ, zero, suc, ◌+◌, ◌≤◌, ◌<◌, ◌≢◌, ◌≡◌, refl, Bool, true, false, ◌&&◌, ◌||◌, List, [], ◌∷◌, ◌++◌,
  leb, ltb, ◌==◌, if◌then◌else◌, length, arith, All,
}
use claw_hermes_ai_go.TextChunk.Runes.{Bytes, Rune, runes, encoded}

pub is_latin_char : ℕ → Bool
is_latin_char r =
    (leb 0x0041 r && leb r 0x007A)
    || (leb 0x00C0 r && leb r 0x00D6)
    || (leb 0x0030 r && leb r 0x0039)

-- '。', '！', '？', '．'
ends_ideographic : ℕ → Bool
ends_ideographic r = r == 0x3002 || r == 0xFF01 || r == 0xFF1F || r == 0xFF0E

ends_latin : ℕ → Bool
ends_latin r = r == b'.' || r == b'!' || r == b'?'

pub record Splitter : Type 0 where
  pub sentences : List Bytes
  pub current : Bytes

flush : Splitter → Splitter
flush s = record { sentences = s.sentences ++ s.current ∷ []; current = [] }

nonempty : Bytes → Bool
nonempty [] = false
nonempty (b ∷ bs) = true

-- The `switch` on a rune.
pub feed : Splitter → Rune → Splitter
feed s r =
    let written : Splitter = record s { current = s.current ++ encoded r } in
    if ends_ideographic r.code
    then if nonempty written.current then flush written else written
    else if ends_latin r.code
    then if is_latin_char r.code then flush written else written
    else if r.code == 10
    then if nonempty s.current then flush s else s
    else written

feed_all : Splitter → List Rune → Splitter
feed_all s [] = s
feed_all s (r ∷ rs) = feed_all (feed s r) rs

pub split_sentences : Bytes → List Bytes
split_sentences text =
    let s = feed_all (record { sentences = []; current = [] }) (runes text) in
    if nonempty s.current then s.sentences ++ s.current ∷ [] else s.sentences
