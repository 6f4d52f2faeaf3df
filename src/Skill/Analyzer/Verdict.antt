-- ===== src/Skill/Analyzer/Verdict.antt =====
-- analyzer.go: the code that `Check` calls safe.
use claw_hermes_ai_go.Base.{
  ℕ, ◌≡◌, refl, sym, ◌∙◌, ◌≢◌, ◌↔◌, ◌⊎◌, inl, inr, Bool, true, false, List, [], ◌∷◌, ◌++◌, arith,
  String, str_append, str_eq, All, eq_iff, Bool-cases,
}
use claw_hermes_ai_go.Base.Iff.{iff_trans, iff_both, iff_false, iff_or, All-iff}
use claw_hermes_ai_go.TextChunk.Runes.{Bytes, trim_space}
use claw_hermes_ai_go.Skill.Analyzer.{
  ascii, contains_token, contains, split_lines, contains_py_import, py_forbidden_imports,
  py_forbidden_builtins, js_forbidden_accessors, js_forbidden_calls, js_forbidden_tokens,
  js_forbidden_patterns, reasons_for, token_caught, access_caught, pattern_caught, verdict,
  check_python, check_js, check,
}
use claw_hermes_ai_go.Skill.Analyzer.Tokens.{Token, contains_token-Token}
use claw_hermes_ai_go.Skill.Analyzer.Searches.{Part, ImportLine, any_imports-All, contains-Part}

-- There are no reasons exactly when no name is caught.
Nil-iff :
    (caught : String → Bool) (label : String) (names : List String)
    → (reasons_for caught label names ≡ []) ↔ All (λ name. caught name ≡ false) names
unfolding reasons_for
Nil-iff caught label [] = (λ e. tt, λ h. refl)
Nil-iff caught label (name ∷ names) = elim (Bool-cases (caught name)) [
  | inl hit ↦ (λ e. absurd (cc (rw (hit, reasons_for) at e)), λ h. absurd (cc (h.0, hit)))
  | inr no_hit ↦ (
    λ e. (no_hit, (Nil-iff caught label names).0 (rw (no_hit, reasons_for) at e)),
    λ h. rw (no_hit) ((Nil-iff caught label names).1 h.1),
  )
]

append-nil_both : (xs ys : List String) → (xs ++ ys ≡ []) ↔ ((xs ≡ []) × (ys ≡ []))
append-nil_both [] ys = (λ e. (refl, e), λ h. h.1)
append-nil_both (x ∷ xs) ys = (λ e. absurd (cc), λ h. absurd (cc (h.0)))

verdict-nil : (rs : List String) → ((verdict rs).safe ≡ true) ↔ (rs ≡ [])
unfolding verdict
verdict-nil [] = (λ e. refl, λ e. refl)
verdict-nil (r ∷ rs) = (λ e. absurd (cc), λ e. absurd (cc))

-- Tables whose names have bytes.
filled : List String → Bool
unfolding ascii
filled [] = true
filled (name ∷ names) = let rest = filled names in elim (ascii name) [ [] ↦ false | b ∷ bs ↦ rest ]

not_empty :
    (test : Bytes → Bool) (Spec : Bytes → Type 0) (s : Bytes) (rest : Bool)
    → ((b : ℕ) (bs : Bytes) → (test (b ∷ bs) ≡ true) ↔ Spec (b ∷ bs))
    → (elim s [ [] ↦ false | b ∷ bs ↦ rest ]) ≡ true
    → ((test s ≡ false) ↔ ¬ (Spec s)) × (rest ≡ true)
not_empty test Spec [] rest f e = absurd (cc)
not_empty test Spec (b ∷ bs) rest f e = (iff_false (test (b ∷ bs)) (f b bs), e)

test-Spec-All :
    (test : Bytes → Bool) (Spec : Bytes → Type 0) (names : List String)
    → ((b : ℕ) (bs : Bytes) → (test (b ∷ bs) ≡ true) ↔ Spec (b ∷ bs))
    → filled names ≡ true
    → All (λ name. test (ascii name) ≡ false) names ↔ All (λ name. ¬ (Spec (ascii name))) names
unfolding filled
test-Spec-All test Spec [] f all = (λ h. h, λ h. h)
test-Spec-All test Spec (name ∷ names) f all =
    let (here, later) = not_empty test Spec (ascii name) (filled names) f all in
    iff_both here (test-Spec-All test Spec names f later)

-- No line, without the spaces round it, imports one of the modules.
pub NoImport : Bytes → List String → Type 0
unfolding split_lines
NoImport code names =
    All (λ name. All (λ line. ¬ (ImportLine (trim_space line) name)) (split_lines code)) names

-- None of the names is an identifier of its own.
pub NoToken : Bytes → List String → Type 0
unfolding ascii
NoToken code names = All (λ name. ¬ (Token code (ascii name))) names

-- None of the names has a dot or a bracket behind it.
pub NoAccess : Bytes → List String → Type 0
unfolding ascii
NoAccess code names =
    All
      (λ name.
        ¬ (Part code (ascii (str_append name ".")) ⊎ Part code (ascii (str_append name "["))))
      names

-- None of the names occurs.
pub NoPart : Bytes → List String → Type 0
unfolding ascii
NoPart code names = All (λ name. ¬ (Part code (ascii name))) names

abbrev pub SafePython : Bytes → Type 0
SafePython code = NoImport code py_forbidden_imports × NoToken code py_forbidden_builtins

abbrev pub SafeJs : Bytes → Type 0
SafeJs code =
    NoAccess code js_forbidden_accessors
    × (NoToken code js_forbidden_calls
        × (NoToken code js_forbidden_tokens × NoPart code js_forbidden_patterns))

tokens-All :
    (code : Bytes) (label : String) (names : List String)
    → filled names ≡ true
    → (reasons_for (token_caught code) label names ≡ []) ↔ NoToken code names
unfolding token_caught NoToken
tokens-All code label names all =
    iff_trans (Nil-iff (token_caught code) label names)
      (test-Spec-All (contains_token code) (Token code) names (contains_token-Token code) all)

parts-All :
    (code : Bytes) (label : String) (names : List String)
    → (reasons_for (pattern_caught code) label names ≡ []) ↔ NoPart code names
unfolding pattern_caught NoPart
parts-All code label names = iff_trans (Nil-iff (pattern_caught code) label names) (
    All-iff names
      (λ name. iff_false (contains code (ascii name)) (contains-Part code (ascii name))))

imports-All :
    (code : Bytes) (label : String) (names : List String)
    → (reasons_for (contains_py_import code) label names ≡ []) ↔ NoImport code names
unfolding contains_py_import NoImport
imports-All code label names =
    iff_trans (Nil-iff (contains_py_import code) label names)
      (All-iff names (λ name. any_imports-All (split_lines code) name))

access-All :
    (code : Bytes) (label : String) (names : List String)
    → (reasons_for (access_caught code) label names ≡ []) ↔ NoAccess code names
unfolding access_caught NoAccess
access-All code label names = iff_trans (Nil-iff (access_caught code) label names) (
    All-iff names (λ name. iff_false (access_caught code name) (
      iff_or (contains code (ascii (str_append name ".")))
        (contains code (ascii (str_append name "[")))
        (contains-Part code (ascii (str_append name ".")))
        (contains-Part code (ascii (str_append name "["))))))

builtins_filled : filled py_forbidden_builtins ≡ true
unfolding filled ascii
builtins_filled = refl

calls_filled : filled js_forbidden_calls ≡ true
unfolding filled ascii
calls_filled = refl

tokens_filled : filled js_forbidden_tokens ≡ true
unfolding filled ascii
tokens_filled = refl

check_python-SafePython : (code : Bytes) → ((check_python code).safe ≡ true) ↔ SafePython code
unfolding check_python
check_python-SafePython code =
    let bad_imports =
      reasons_for (contains_py_import code) "forbidden import: " py_forbidden_imports in
    let builtins = reasons_for (token_caught code) "forbidden builtin: " py_forbidden_builtins in
    iff_trans (verdict-nil (bad_imports ++ builtins)) (
      iff_trans (append-nil_both bad_imports builtins) (
        iff_both (imports-All code "forbidden import: " py_forbidden_imports)
          (tokens-All code "forbidden builtin: " py_forbidden_builtins builtins_filled)))

check_js-SafeJs : (code : Bytes) → ((check_js code).safe ≡ true) ↔ SafeJs code
unfolding check_js
check_js-SafeJs code =
    let accessed = reasons_for (access_caught code) "forbidden global: " js_forbidden_accessors in
    let called = reasons_for (token_caught code) "forbidden global: " js_forbidden_calls in
    let tokens = reasons_for (token_caught code) "forbidden global: " js_forbidden_tokens in
    let patterns = reasons_for (pattern_caught code) "forbidden pattern: " js_forbidden_patterns in
    iff_trans (verdict-nil (accessed ++ (called ++ (tokens ++ patterns)))) (
      iff_trans (append-nil_both accessed (called ++ (tokens ++ patterns))) (
        iff_both (access-All code "forbidden global: " js_forbidden_accessors) (
          iff_trans (append-nil_both called (tokens ++ patterns)) (
            iff_both (tokens-All code "forbidden global: " js_forbidden_calls calls_filled) (
              iff_trans (append-nil_both tokens patterns) (
                iff_both (tokens-All code "forbidden global: " js_forbidden_tokens tokens_filled)
                  (parts-All code "forbidden pattern: " js_forbidden_patterns)))))))

-- `Check` calls a code safe exactly in two cases. It is Python, no line, without the spaces round it,
-- begins with "import " and the name of a forbidden module, or with "from ", such a name and then a
-- space or a dot, and no forbidden builtin occurs without a letter, a digit or an underscore on either
-- side. Or it is JavaScript, no forbidden object has a dot or a bracket behind it, no forbidden name
-- occurs without such a neighbour, and no forbidden pattern occurs at all.
pub check_safe :
    (lang : String) (code : Bytes)
    → ((check lang code).safe ≡ true)
      ↔ (((lang ≡ "python") × SafePython code) ⊎ ((lang ≡ "javascript") × SafeJs code))
unfolding check
check_safe lang code = elim (Bool-cases (str_eq lang "python")) [
  | inl python ↦ (
    λ e. inl (
      (eq_iff lang "python").0 python,
      (check_python-SafePython code).0 (rw (python, check) at e),
    ),
    λ h. elim h [
      | inl (same, safe) ↦ rw (python, check) ((check_python-SafePython code).1 safe)
      | inr (same, safe) ↦ absurd (neither (sym ((eq_iff lang "python").0 python) ∙ same))
    ],
  )
  | inr not_python ↦ elim (Bool-cases (str_eq lang "javascript")) [
    | inl js ↦ (
      λ e. inr (
        (eq_iff lang "javascript").0 js,
        (check_js-SafeJs code).0 (rw (not_python, js, check) at e),
      ),
      λ h. elim h [
        | inl (same, safe) ↦ absurd (cc ((eq_iff lang "python").1 same, not_python))
        | inr (same, safe) ↦ rw (not_python, js, check) ((check_js-SafeJs code).1 safe)
      ],
    )
    | inr other ↦ (
      λ e. absurd (cc (rw (not_python, other, check) at e)),
      λ h. elim h [
        | inl (same, safe) ↦ absurd (cc ((eq_iff lang "python").1 same, not_python))
        | inr (same, safe) ↦ absurd (cc ((eq_iff lang "javascript").1 same, other))
      ],
    )
  ]
]
  where
    neither : ◌≢◌ {A = String} "python" "javascript"
    neither = ground (arith, eq_iff "python" "javascript")
