-- ===== src/Skill/Analyzer.antt =====
-- internal/skill/analyzer.go: the static analysis of a skill's code before it runs. The code is its
-- bytes. The loop of `containsToken` runs on fuel, a round for each byte and one more.
pub mod Tokens
pub mod Searches
pub mod Verdict
mod Tests
use Prim.Native.Char.{code as code_of}
use Prim.Native.String.{[] as empty, ◌∷◌ as char_then}
use claw_hermes_ai_go.Base.{
  ℕ, zero, suc, ◌+◌, ◌-◌, Bool, true, false, not, ◌&&◌, ◌||◌, Option, none, some, List, [], ◌∷◌,
  ◌++◌, String, str_append, str_eq, ltb, leb, ◌==◌, if◌then◌else◌, length, drop,
}
use claw_hermes_ai_go.TextChunk.Runes.{Bytes, byte_at, trim_space}
use claw_hermes_ai_go.TextChunk.Breaks.{has_prefix, index_of}

pub record AnalysisResult : Type 0 where
  pub safe : Bool
  pub reasons : List String

-- The bytes of an ASCII text.
pub ascii : String → Bytes
ascii empty = []
ascii (char_then c s) = code_of c ∷ ascii s

pub is_ident_char : ℕ → Bool
is_ident_char r =
    (leb b'a' r && leb r b'z')
    || (leb b'A' r && leb r b'Z')
    || (leb b'0' r && leb r b'9')
    || r == b'_'

pub before_ok : Bytes → ℕ → Bool
unfolding is_ident_char
before_ok code abs = abs == 0 || not (is_ident_char (byte_at code (abs - 1)))

pub after_ok : Bytes → Bytes → ℕ → Bool
unfolding is_ident_char
after_ok code name abs =
    leb (length code) (abs + length name) || not (is_ident_char (byte_at code (abs + length name)))

-- The loop, from an index on.
pub token_loop : ℕ → Bytes → Bytes → ℕ → Bool
unfolding before_ok after_ok
token_loop zero code name idx = false
token_loop (suc fuel) code name idx = elim (index_of (drop idx code) name) [
  | none ↦ false
  | some pos ↦
      let later = token_loop fuel code name (idx + pos + 1) in
      if before_ok code (idx + pos) && after_ok code name (idx + pos) then true else later
]

pub contains_token : Bytes → Bytes → Bool
unfolding token_loop
contains_token code name = token_loop (length code + 1) code name 0

-- `strings.Contains`
pub contains : Bytes → Bytes → Bool
contains code name = elim (index_of code name) [ none ↦ false | some i ↦ true ]

add_to_first : ℕ → List Bytes → List Bytes
add_to_first b [] = (b ∷ []) ∷ []
add_to_first b (line ∷ lines) = (b ∷ line) ∷ lines

-- `strings.Split(code, "\n")`
pub split_lines : Bytes → List Bytes
unfolding add_to_first
split_lines [] = [] ∷ []
split_lines (b ∷ bs) =
    let lines = split_lines bs in if b == 10 then [] ∷ lines else add_to_first b lines

pub imports : Bytes → String → Bool
unfolding ascii
imports trimmed mod_name =
    has_prefix trimmed (ascii (str_append "import " mod_name))
    || has_prefix trimmed (ascii (str_append "from " (str_append mod_name " ")))
    || has_prefix trimmed (ascii (str_append "from " (str_append mod_name ".")))

pub any_imports : List Bytes → String → Bool
unfolding imports
any_imports [] mod_name = false
any_imports (line ∷ lines) mod_name =
    let rest = any_imports lines mod_name in
    if imports (trim_space line) mod_name then true else rest

pub contains_py_import : Bytes → String → Bool
unfolding any_imports split_lines
contains_py_import code mod_name = any_imports (split_lines code) mod_name

abbrev pub py_forbidden_imports : List String
py_forbidden_imports =
    "os" ∷ "sys" ∷ "subprocess" ∷ "shutil" ∷ "socket" ∷ "urllib" ∷ "http" ∷ "requests" ∷ "ctypes"
    ∷ "threading" ∷ "multiprocessing" ∷ "signal" ∷ "resource" ∷ "pathlib" ∷ "importlib" ∷ "builtins"
    ∷ []

abbrev pub py_forbidden_builtins : List String
py_forbidden_builtins =
    "exec" ∷ "eval" ∷ "compile" ∷ "open" ∷ "__import__" ∷ "globals" ∷ "locals" ∷ "vars" ∷ "getattr"
    ∷ "setattr" ∷ "delattr" ∷ "dir" ∷ []

abbrev pub js_forbidden_accessors : List String
js_forbidden_accessors = "process" ∷ "global" ∷ "Buffer" ∷ []

abbrev pub js_forbidden_calls : List String
js_forbidden_calls =
    "require" ∷ "XMLHttpRequest" ∷ "fetch" ∷ "WebSocket" ∷ "Worker" ∷ "importScripts" ∷ []

abbrev pub js_forbidden_tokens : List String
js_forbidden_tokens = "__dirname" ∷ "__filename" ∷ []

abbrev pub js_forbidden_patterns : List String
js_forbidden_patterns = "new Function(" ∷ "__proto__" ∷ "prototype.constructor" ∷ []

-- A loop over a table: a reason for each name that the code is caught with.
pub reasons_for : (String → Bool) → String → List String → List String
reasons_for caught label [] = []
reasons_for caught label (name ∷ names) =
    let rest = reasons_for caught label names in
    if caught name then str_append label name ∷ rest else rest

pub token_caught : Bytes → String → Bool
unfolding contains_token ascii
token_caught code name = contains_token code (ascii name)

pub access_caught : Bytes → String → Bool
unfolding contains ascii
access_caught code name =
    contains code (ascii (str_append name ".")) || contains code (ascii (str_append name "["))

pub pattern_caught : Bytes → String → Bool
unfolding contains ascii
pattern_caught code name = contains code (ascii name)

pub verdict : List String → AnalysisResult
verdict [] = record { safe = true; reasons = [] }
verdict (r ∷ rs) = record { safe = false; reasons = r ∷ rs }

pub check_python : Bytes → AnalysisResult
unfolding reasons_for verdict contains_py_import token_caught
check_python code = verdict (
    reasons_for (contains_py_import code) "forbidden import: " py_forbidden_imports
    ++ reasons_for (token_caught code) "forbidden builtin: " py_forbidden_builtins)

pub check_js : Bytes → AnalysisResult
unfolding reasons_for verdict access_caught token_caught pattern_caught
check_js code = verdict (
    reasons_for (access_caught code) "forbidden global: " js_forbidden_accessors
    ++ (reasons_for (token_caught code) "forbidden global: " js_forbidden_calls
        ++ (reasons_for (token_caught code) "forbidden global: " js_forbidden_tokens
            ++ reasons_for (pattern_caught code) "forbidden pattern: " js_forbidden_patterns)))

pub check : String → Bytes → AnalysisResult
unfolding check_python check_js
check lang code =
    if str_eq lang "python"
    then check_python code
    else if str_eq lang "javascript"
    then check_js code
    else record { safe = false; reasons = str_append "unsupported language: " lang ∷ [] }
