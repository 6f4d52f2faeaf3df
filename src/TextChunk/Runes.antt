-- ===== src/TextChunk/Runes.antt =====
-- Go strings as lists of bytes, and their runes as `range` over a string and `strings.TrimSpace` of
-- the standard library see them; a byte that begins no valid encoding is the rune U+FFFD.
use claw_hermes_ai_go.Base.{
  ℕ, zero, suc, ◌+◌, ◌-◌, ◌*◌, ◌<◌, ◌≡◌, refl, Bool, ◌&&◌, ◌||◌, List, [], ◌∷◌, ◌++◌, leb, ltb,
  ◌==◌, if◌then◌else◌, take, lt→ltb,
}
use mathlib.Core.List.{reverse}

abbrev pub Bytes : Type 0
Bytes = List ℕ

pub record Rune : Type 0 where
  pub code : ℕ
  pub bytes : Bytes

abbrev pub byte_at : Bytes → ℕ → ℕ
byte_at [] i = 0
byte_at (b ∷ bs) zero = b
byte_at (b ∷ bs) (suc i) = byte_at bs i

within : ℕ → ℕ → ℕ → Bool
within lo hi b = leb lo b && leb b hi

-- The second byte's range depends on the first.
second : ℕ → ℕ → Bool
unfolding within
second b₀ b₁ =
    if b₀ == 0xE0
    then within 0xA0 0xBF b₁
    else if b₀ == 0xED
    then within 0x80 0x9F b₁
    else if b₀ == 0xF0
    then within 0x90 0xBF b₁
    else if b₀ == 0xF4
    then within 0x80 0x8F b₁
    else within 0x80 0xBF b₁

-- The first rune behind a first byte, and its number of bytes.
pub decode : ℕ → Bytes → ℕ × ℕ
unfolding second
decode b₀ rest =
    let b₁ = byte_at rest 0 in
    let b₂ = byte_at rest 1 in
    let b₃ = byte_at rest 2 in
    if ltb b₀ 0x80
    then (b₀, 1)
    else if within 0xC2 0xDF b₀ && second b₀ b₁
    then ((b₀ - 0xC0) * 64 + (b₁ - 0x80), 2)
    else if within 0xE0 0xEF b₀ && second b₀ b₁ && within 0x80 0xBF b₂
    then ((b₀ - 0xE0) * 4096 + (b₁ - 0x80) * 64 + (b₂ - 0x80), 3)
    else if within 0xF0 0xF4 b₀ && second b₀ b₁ && within 0x80 0xBF b₂ && within 0x80 0xBF b₃
    then ((b₀ - 0xF0) * 262144 + (b₁ - 0x80) * 4096 + (b₂ - 0x80) * 64 + (b₃ - 0x80), 4)
    else (0xFFFD, 1)

-- `skip` bytes belong to the rune before.
runes_from : ℕ → Bytes → List Rune
unfolding decode
runes_from skip [] = []
runes_from (suc skip) (b ∷ bs) = runes_from skip bs
runes_from zero (b ∷ bs) =
    let (code, size) = decode b bs in
    record { code = code; bytes = take size (b ∷ bs) } ∷ runes_from (size - 1) bs

pub runes : Bytes → List Rune
runes text = runes_from 0 text

-- What `WriteRune` writes: the rune's own bytes, or the encoding of U+FFFD for an invalid byte.
pub encoded : Rune → Bytes
encoded r = if r.code == 0xFFFD then 0xEF ∷ 0xBF ∷ 0xBD ∷ [] else r.bytes

-- `unicode.IsSpace`
is_space : ℕ → Bool
unfolding within
is_space c =
    within 0x09 0x0D c
    || c == 0x20
    || c == 0x85
    || c == 0xA0
    || c == 0x1680
    || within 0x2000 0x200A c
    || c == 0x2028
    || c == 0x2029
    || c == 0x202F
    || c == 0x205F
    || c == 0x3000

drop_spaces : List Rune → List Rune
unfolding is_space
drop_spaces [] = []
drop_spaces (r ∷ rs) = let rest = drop_spaces rs in if is_space r.code then rest else r ∷ rs

all_bytes : List Rune → Bytes
all_bytes [] = []
all_bytes (r ∷ rs) = r.bytes ++ all_bytes rs

-- `strings.TrimSpace`
pub trim_space : Bytes → Bytes
unfolding drop_spaces all_bytes runes
trim_space s = all_bytes (reverse (drop_spaces (reverse (drop_spaces (runes s)))))

decode-ascii : (b : ℕ) (bs : Bytes) → b < 128 → decode b bs ≡ (b, 1)
unfolding decode
decode-ascii b bs h = rw (lt→ltb b 0x80 h) refl

pub runes-nil : runes [] ≡ []
unfolding runes runes_from
runes-nil = refl

-- The runes of an ASCII text are its bytes.
pub runes-ascii :
    (b : ℕ) (bs : Bytes) → b < 128 → runes (b ∷ bs) ≡ record { code = b; bytes = b ∷ [] } ∷ runes bs
unfolding runes runes_from
runes-ascii b bs h = rw (decode-ascii b bs h) refl
