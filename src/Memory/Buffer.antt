-- ===== src/Memory/Buffer.antt =====
-- internal/memory/short_term.go: the buffer of a conversation, and the window that stands on it. Each
-- method holds the mutex for its whole body. An entry is a value here: what `Add` writes into it is
-- part of the stored entry. The generated ID and the clock are arguments, times are nanoseconds, and
-- the fields of an entry that these memories do not look at are left out. A maximal age below 0 is not
-- modelled.
pub mod Kept
pub mod Search
mod Tests
use claw_hermes_ai_go.Base.{
  ℕ, zero, suc, ◌+◌, ◌-◌, Bool, true, false, not, ◌&&◌, ◌||◌, Option, none, some, List, [], ◌∷◌,
  ◌++◌, String, str_eq, leb, ltb, if◌then◌else◌, length, drop, keep,
}
use claw_hermes_ai_go.Base.Int.{ℤ, pos, negsuc, not_positive, rounds}
use claw_hermes_ai_go.TextChunk.Runes.{Bytes}
use claw_hermes_ai_go.Memory.Matching.{contains}

pub data MemoryType : Type 0 where
  short_term long_term entity summary : MemoryType

abbrev pub same_type : MemoryType → MemoryType → Bool
same_type short_term short_term = true
same_type long_term long_term = true
same_type entity entity = true
same_type summary summary = true
same_type _ _ = false

pub record MemoryEntry : Type 0 where
  pub id : String
  pub type : MemoryType
  pub role : String
  pub content : Bytes
  pub timestamp : ℕ
  pub tenant_id : String
  pub user_id : String
  pub session_id : String
  -- `none` is the zero time.
  pub expires_at : Option ℕ

pub record MemoryConfig : Type 0 where
  pub max_short_term_messages : ℤ
  pub short_term_window_size : ℤ
  pub max_memory_age : ℕ

-- `DefaultMemoryConfig`, with a maximal age of 30 days.
abbrev pub default_memory_config : MemoryConfig
default_memory_config = record {
  max_short_term_messages = pos 100;
  short_term_window_size = pos 10;
  max_memory_age = 2_592_000_000_000_000;
}

pub record ConversationBufferMemory : Type 0 where
  pub memory : List MemoryEntry
  pub config : MemoryConfig

pub new_conversation_buffer_memory : Option MemoryConfig → ConversationBufferMemory
new_conversation_buffer_memory none = record { memory = []; config = default_memory_config }
new_conversation_buffer_memory (some config) = record { memory = []; config = config }

-- What `Add` writes into an entry.
abbrev pub stamped : String → ℕ → MemoryEntry → MemoryEntry
stamped uuid now entry = record entry {
  id = if str_eq entry.id "" then uuid else entry.id;
  type = short_term;
  timestamp = now;
}

-- The trim behind an append; a negative maximum slices beyond the end, which panics.
pub trimmed : ℤ → List MemoryEntry → Option (List MemoryEntry)
trimmed (pos n) memory =
    if ltb n (length memory) then some (drop (length memory - n) memory) else some memory
trimmed (negsuc n) memory = none

with_memory : ConversationBufferMemory → Option (List MemoryEntry) → Option ConversationBufferMemory
with_memory m none = none
with_memory m (some memory) = some (record m { memory = memory })

pub add : ConversationBufferMemory → String → ℕ → MemoryEntry → Option ConversationBufferMemory
unfolding with_memory
add m uuid now entry =
    with_memory m
      (trimmed m.config.max_short_term_messages (m.memory ++ stamped uuid now entry ∷ []))

entry_of : String → List MemoryEntry → Option MemoryEntry
entry_of id [] = none
entry_of id (e ∷ es) = if str_eq e.id id then some e else entry_of id es

pub get : ConversationBufferMemory → String → Option MemoryEntry
unfolding entry_of
get m id = entry_of id m.memory

-- The memory without the first entry of an ID; `none` if there is none.
pub without : String → List MemoryEntry → Option (List MemoryEntry)
without id [] = none
without id (e ∷ es) = elim (without id es) [
  | none ↦ if str_eq e.id id then some es else none
  | some rest ↦ if str_eq e.id id then some es else some (e ∷ rest)
]

-- `none` is the error of an entry that is not found.
pub delete : ConversationBufferMemory → String → Option ConversationBufferMemory
unfolding with_memory
delete m id = with_memory m (without id m.memory)

pub record SessionContext : Type 0 where
  pub tenant_id : String
  pub user_id : String
  pub session_id : String

pub clear : ConversationBufferMemory → Option SessionContext → ConversationBufferMemory
clear m none = record m { memory = [] }
clear m (some ctx) = record m {
  memory = keep (λ e. not (str_eq e.session_id ctx.session_id)) m.memory;
}

-- The number of entries that the statistics tell.
pub get_stats : ConversationBufferMemory → Option SessionContext → ℕ
get_stats m none = length m.memory
get_stats m (some ctx) = length (keep (λ e. str_eq e.session_id ctx.session_id) m.memory)

abbrev expired : ℕ → Option ℕ → Bool
expired now none = false
expired now (some t) = ltb t now

pub stays : MemoryConfig → ℕ → MemoryEntry → Bool
stays config now e =
    not (expired now e.expires_at) && not (ltb config.max_memory_age (now - e.timestamp))

pub cleanup : ConversationBufferMemory → ℕ → ConversationBufferMemory
unfolding stays
cleanup m now = record m { memory = keep (stays m.config now) m.memory }

pub record MemorySearchRequest : Type 0 where
  pub query : Bytes
  pub context : Option SessionContext
  pub types : List MemoryType
  pub limit : ℤ
  pub time_range : Option (ℕ × ℕ)

-- 1.0 without a query, 0.9 for a match.
pub data Score : Type 0 where
  whole nine_tenths : Score

-- The filters by context, type, time and query.
in_field : String → String → Bool
in_field wanted found = str_eq wanted "" || str_eq found wanted

in_context : Option SessionContext → MemoryEntry → Bool
unfolding in_field
in_context none e = true
in_context (some ctx) e =
    in_field ctx.tenant_id e.tenant_id
    && in_field ctx.user_id e.user_id
    && in_field ctx.session_id e.session_id

among : List MemoryType → MemoryType → Bool
among [] t = false
among (s ∷ ss) t = same_type t s || among ss t

in_types : List MemoryType → MemoryType → Bool
unfolding among
in_types [] t = true
in_types (s ∷ ss) t = among (s ∷ ss) t

in_range : Option (ℕ × ℕ) → ℕ → Bool
in_range none t = true
in_range (some (from, to)) t = not (ltb t from || ltb to t)

scored : Bytes → Bytes → Option Score
scored [] content = some whole
scored (b ∷ bs) content = if contains content (b ∷ bs) then some nine_tenths else none

-- The score of an entry that passes the filters, as the loop of `Search` finds it.
pub score_of : MemorySearchRequest → MemoryEntry → Option Score
unfolding in_context in_types in_range scored
score_of req e =
    if in_context req.context e && in_types req.types e.type && in_range req.time_range e.timestamp
    then scored req.query e.content
    else none

-- The loop; `found` results stand before.
pub search_from : MemorySearchRequest → ℕ → List MemoryEntry → List (MemoryEntry × Score)
search_from req found [] = []
search_from req found (e ∷ es) =
    let skipped = search_from req found es in
    let rest = search_from req (found + 1) es in
    elim (score_of req e) [
      | none ↦ skipped
      | some score ↦
          if not (not_positive req.limit) && leb (rounds req.limit) (found + 1)
          then (e, score) ∷ []
          else (e, score) ∷ rest
    ]

pub search : ConversationBufferMemory → MemorySearchRequest → List (MemoryEntry × Score)
search m req = search_from req 0 m.memory

pub record ConversationWindowMemory : Type 0 where
  pub buffer : ConversationBufferMemory
  pub window_size : ℕ

pub new_conversation_window_memory : MemoryConfig → ConversationWindowMemory
new_conversation_window_memory config = record {
  buffer = new_conversation_buffer_memory (some config);
  window_size =
      if not_positive config.short_term_window_size
      then 10
      else rounds config.short_term_window_size;
}

pub add_to_window : ConversationWindowMemory → String → ℕ → MemoryEntry → ConversationWindowMemory
add_to_window w uuid now entry =
    let memory = w.buffer.memory ++ stamped uuid now entry ∷ [] in
    record w {
      buffer = record w.buffer {
        memory =
            if ltb w.window_size (length memory)
            then drop (length memory - w.window_size) memory
            else memory;
      };
    }
