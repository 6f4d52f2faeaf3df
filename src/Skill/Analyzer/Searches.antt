-- ===== src/Skill/Analyzer/Searches.antt =====
-- analyzer.go: the import lines and the parts of a code.
use claw_hermes_ai_go.Base.{
  ℕ, ◌≡◌, refl, sym, ap, ◌∙◌, ◌≢◌, subst, ◌↔◌, ◌⊎◌, inl, inr, true, false, ◌||◌, none, List, [],
  ◌∷◌, ◌++◌, String, str_append, All, drop, length, take, Bool-cases, Option-cases,
}
use claw_hermes_ai_go.Base.Iff.{iff_false, iff_or}
use claw_hermes_ai_go.TextChunk.Runes.{Bytes, trim_space}
use claw_hermes_ai_go.TextChunk.Breaks.{index_of, has_prefix}
use claw_hermes_ai_go.TextChunk.Breaks.Searching.{
  has_prefix-append, append-has_prefix, index_of-First, index_of-none, index_of-empty,
}
use claw_hermes_ai_go.Skill.Analyzer.{ascii, contains, imports, any_imports}
use claw_hermes_ai_go.Skill.Analyzer.Tokens.{cut_at, drop-length}

-- What a text begins with, and what it has somewhere.
abbrev pub Begins : Bytes → Bytes → Type 0
Begins s part = (rest : Bytes) × (s ≡ part ++ rest)

abbrev pub Part : Bytes → Bytes → Type 0
Part code part = (pre : Bytes) × (post : Bytes) × (code ≡ pre ++ (part ++ post))

-- A line, without the spaces round it, that the analysis reads as an import of a module.
pub ImportLine : Bytes → String → Type 0
unfolding ascii
ImportLine line name =
    (Begins line (ascii (str_append "import " name))
      ⊎ Begins line (ascii (str_append "from " (str_append name " "))))
    ⊎ Begins line (ascii (str_append "from " (str_append name ".")))

has_prefix-Begins : (s part : Bytes) → (has_prefix s part ≡ true) ↔ Begins s part
has_prefix-Begins s part = (
  has_prefix-append s part,
  λ (rest, e). subst (λ s. has_prefix s part ≡ true) (sym e) (append-has_prefix part rest),
)

imports-ImportLine :
    (line : Bytes) (name : String) → (imports line name ≡ true) ↔ ImportLine line name
unfolding imports ImportLine
imports-ImportLine line name =
    iff_or
      (has_prefix line (ascii (str_append "import " name))
        || has_prefix line (ascii (str_append "from " (str_append name " "))))
      (has_prefix line (ascii (str_append "from " (str_append name "."))))
      (iff_or (has_prefix line (ascii (str_append "import " name)))
        (has_prefix line (ascii (str_append "from " (str_append name " "))))
        (has_prefix-Begins line (ascii (str_append "import " name)))
        (has_prefix-Begins line (ascii (str_append "from " (str_append name " ")))))
      (has_prefix-Begins line (ascii (str_append "from " (str_append name "."))))

pub any_imports-All :
    (lines : List Bytes) (name : String)
    → (any_imports lines name ≡ false) ↔ All (λ line. ¬ (ImportLine (trim_space line) name)) lines
unfolding any_imports
any_imports-All [] name = (λ e. tt, λ h. refl)
any_imports-All (line ∷ lines) name = elim (Bool-cases (imports (trim_space line) name)) [
  | inl hit ↦ (
    λ e. absurd (cc (rw (hit, any_imports) at e)),
    λ h. absurd (h.0 ((imports-ImportLine (trim_space line) name).0 hit)),
  )
  | inr no_hit ↦ (
    λ e. (
      (iff_false (imports (trim_space line) name) (imports-ImportLine (trim_space line) name)).0
          no_hit,
      (any_imports-All lines name).0 (rw (no_hit, any_imports) at e),
    ),
    λ h. rw no_hit ((any_imports-All lines name).1 h.1),
  )
]

has_prefix-somewhere :
    (pre s : Bytes) (b : ℕ) (bs : Bytes)
    → has_prefix s (b ∷ bs) ≡ true
    → index_of (pre ++ s) (b ∷ bs) ≢ none
has_prefix-somewhere pre s b bs h e = absurd (
    cc (
      index_of-none (pre ++ s) b bs (length pre) e,
      subst (λ r. has_prefix r (b ∷ bs) ≡ true) (sym (drop-length pre s)) h,
    ))

contains-Part_cons :
    (code : Bytes) (b : ℕ) (bs : Bytes) → (contains code (b ∷ bs) ≡ true) ↔ Part code (b ∷ bs)
unfolding contains
contains-Part_cons code b bs = elim (Option-cases (index_of code (b ∷ bs))) [
  | inl absent ↦ (
    λ e. absurd (cc (rw (absent, contains) at e)),
    λ (pre, post, whole). absurd (
        has_prefix-somewhere pre ((b ∷ bs) ++ post) b bs (append-has_prefix (b ∷ bs) post)
          (subst (λ c. index_of c (b ∷ bs) ≡ none) whole absent)),
  )
  | inr (i, found) ↦ (
    λ e.
        let (post, cut) =
          has_prefix-append (drop i code) (b ∷ bs) (index_of-First code (b ∷ bs) i found).here in
        (take i code, post, sym (cut_at i code) ∙ ap (λ s. take i code ++ s) cut),
    λ h. rw (found, contains) refl,
  )
]

pub contains-Part : (code part : Bytes) → (contains code part ≡ true) ↔ Part code part
unfolding contains
contains-Part code [] = (λ e. ([], code, refl), λ h. rw (index_of-empty code, contains) refl)
contains-Part code (b ∷ bs) = contains-Part_cons code b bs
