-- ===== src/Skill/Analyzer/Tests.antt =====
-- analyzer.go: runs, and the instances of the theorems.
use claw_hermes_ai_go.Base.{◌≡◌, refl, ◌↔◌, ◌⊎◌, true, false, [], ◌∷◌, String}
use claw_hermes_ai_go.TextChunk.Runes.{Bytes}
use claw_hermes_ai_go.TextChunk.Breaks.{index_of, has_prefix}
use claw_hermes_ai_go.Skill.Analyzer.{ascii, imports, contains_token, check}
use claw_hermes_ai_go.Skill.Analyzer.Verdict.{check_safe, SafePython, SafeJs}

-- The first import of a line counts, and the others do not.
abbrev two_imports : Bytes
two_imports = ascii "import json, os"

two_imports_run : imports two_imports "os" ≡ false
unfolding imports ascii has_prefix
two_imports_run = refl

-- A longer name that begins with a forbidden one is caught.
longer_name_run : imports (ascii "import osmium") "os" ≡ true
unfolding imports ascii has_prefix
longer_name_run = refl

token_run : contains_token (ascii "x = eval(y)") (ascii "eval") ≡ true
unfolding contains_token ascii index_of
token_run = refl

-- A second occurrence behind one inside a longer name.
second_run : contains_token (ascii "medieval eval") (ascii "eval") ≡ true
unfolding contains_token ascii index_of
second_run = refl

inside_run : contains_token (ascii "medieval") (ascii "eval") ≡ false
unfolding contains_token ascii index_of
inside_run = refl

other_language_run : (check "ruby" two_imports).reasons ≡ "unsupported language: ruby" ∷ []
unfolding check
other_language_run = refl

check_safe_example : ((check "python" two_imports).safe ≡ true) ↔ (
    ((◌≡◌ {A = String} "python" "python") × SafePython two_imports)
    ⊎ ((◌≡◌ {A = String} "python" "javascript") × SafeJs two_imports))
check_safe_example = check_safe "python" two_imports
