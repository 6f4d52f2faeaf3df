-- ===== src/Memory/Buffer/Kept.antt =====
-- short_term.go: what the buffer and the window keep of all that is added.
use claw_hermes_ai_go.Base.{
  ℕ, ◌-◌, ◌≤◌, ◌≡◌, refl, ◌∙◌, ap, Option, none, some, List, [], ◌∷◌, ◌++◌, String, ltb, length,
  drop, length-drop, map, arith, Bool-cases, inl, inr, last_n, last_n-append, append_assoc, sym,
  append-nil,
}
use claw_hermes_ai_go.Base.Int.{pos}
use claw_hermes_ai_go.Memory.Buffer.{
  MemoryEntry, ConversationBufferMemory, stamped, trimmed, with_memory, add,
}

-- An entry with the generated ID and the time of its `Add`.
abbrev pub Added : Type 0
Added = String × ℕ × MemoryEntry

abbrev pub as_stored : Added → MemoryEntry
as_stored (uuid, now, entry) = stamped uuid now entry

pub add_all : ConversationBufferMemory → List Added → Option ConversationBufferMemory
add_all m [] = some m
add_all m ((uuid, now, entry) ∷ es) = elim (add m uuid now entry) [
  | none ↦ none
  | some m' ↦ add_all m' es
]

last_n-small : (n : ℕ) (xs : List MemoryEntry) → length xs ≤ n → last_n n xs ≡ xs
last_n-small n xs h =
    let none_dropped : length xs - n ≡ 0 = omega arith in ap (λ k. drop k xs) none_dropped

trimmed-last_n : (n : ℕ) (xs : List MemoryEntry) → trimmed (pos n) xs ≡ some (last_n n xs)
unfolding trimmed
trimmed-last_n n xs = elim (Bool-cases (ltb n (length xs))) [
  | inl more ↦ rw more refl
  | inr room ↦ rw room (ap some (sym (last_n-small n xs (ground arith))))
]

add-last_n :
    (m : ConversationBufferMemory) (n : ℕ) (uuid : String) (now : ℕ) (entry : MemoryEntry)
    → m.config.max_short_term_messages ≡ pos n
    → add m uuid now entry
      ≡ some (record m { memory = last_n n (m.memory ++ stamped uuid now entry ∷ []) })
unfolding add with_memory
add-last_n m n uuid now entry limit = rw (limit, trimmed-last_n) refl

nothing_added :
    (memory : List MemoryEntry) (n : ℕ) → length memory ≤ n → last_n n (memory ++ []) ≡ memory
nothing_added memory n h = ap (last_n n) (append-nil memory) ∙ last_n-small n memory h

length-last_n-le : (n : ℕ) (xs : List MemoryEntry) → length (last_n n xs) ≤ n
length-last_n-le n xs = omega (arith, length-drop (length xs - n) xs)

-- If the buffer is within its maximum, which is not negative, adding entries never fails, and leaves the last of what it had
-- with what was added, as many as the maximum, each with its ID and time.
pub add_all-keeps_last :
    (m : ConversationBufferMemory) (n : ℕ) (es : List Added)
    → m.config.max_short_term_messages ≡ pos n
    → length m.memory ≤ n
    → add_all m es ≡ some (record m { memory = last_n n (m.memory ++ map as_stored es) })
unfolding add_all
add_all-keeps_last m n [] limit within =
    ap some (ap (λ memory. record m { memory = memory }) (sym (nothing_added m.memory n within)))
add_all-keeps_last m n ((uuid, now, entry) ∷ es) limit within =
    let memory' = last_n n (m.memory ++ stamped uuid now entry ∷ []) in
    rw (add-last_n m n uuid now entry limit, add_all)
      (add_all-keeps_last (record m { memory = memory' }) n es limit
          (length-last_n-le n (m.memory ++ stamped uuid now entry ∷ []))
        ∙ ap some (
            ap (λ memory. record m { memory = memory })
              (last_n-append n (m.memory ++ stamped uuid now entry ∷ []) (map as_stored es)
                ∙ ap (last_n n)
                    (append_assoc m.memory (stamped uuid now entry ∷ []) (map as_stored es)))))
