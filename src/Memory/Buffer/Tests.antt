-- ===== src/Memory/Buffer/Tests.antt =====
-- short_term.go: a buffer of two messages.
use claw_hermes_ai_go.Memory.Buffer.{
  ConversationWindowMemory, new_conversation_window_memory, new_conversation_buffer_memory,
  add_to_window, get_stats, with_memory, without, delete,
}
use claw_hermes_ai_go.Base.{◌≡◌, refl, none, some, List, [], ◌∷◌, ◌++◌, map, arith, last_n}
use claw_hermes_ai_go.Base.Int.{pos}
use claw_hermes_ai_go.Memory.Buffer.{
  short_term, MemoryEntry, ConversationBufferMemory, MemorySearchRequest, search,
}
use claw_hermes_ai_go.Memory.Buffer.Kept.{Added, as_stored, add_all, add_all-keeps_last}
use claw_hermes_ai_go.Memory.Buffer.Search.{hits, up_to, search-hits}

abbrev greeting : MemoryEntry
greeting = record {
  id = "";
  type = short_term;
  role = "user";
  content = 72 ∷ 105 ∷ [];
  timestamp = 0;
  tenant_id = "t";
  user_id = "u";
  session_id = "s";
  expires_at = none;
}

abbrev buffer : ConversationBufferMemory
buffer = record {
  memory = record greeting { id = "m0" } ∷ [];
  config = record {
    max_short_term_messages = pos 2;
    short_term_window_size = pos 2;
    max_memory_age = 100;
  };
}

abbrev two_more : List Added
two_more = ("m1", 5, greeting) ∷ ("m2", 6, greeting) ∷ []

add_all-keeps_last_example :
    add_all buffer two_more
    ≡ some (record buffer { memory = last_n 2 (buffer.memory ++ map as_stored two_more) })
add_all-keeps_last_example = add_all-keeps_last buffer 2 two_more refl (omega arith)

abbrev request : MemorySearchRequest
request = record { query = 104 ∷ []; context = none; types = []; limit = pos 1; time_range = none }

search-hits_example : search buffer request ≡ up_to (pos 1) (hits request buffer.memory)
search-hits_example = search-hits buffer request

-- A window of two after three messages.
abbrev window : ConversationWindowMemory
window =
    add_to_window
      (add_to_window (add_to_window (new_conversation_window_memory buffer.config) "m1" 1 greeting)
        "m2" 2 greeting)
      "m3" 3 greeting

window_kept : get_stats window.buffer none ≡ 2
unfolding new_conversation_window_memory new_conversation_buffer_memory add_to_window get_stats
window_kept = refl

oldest_gone : delete window.buffer "m1" ≡ none
unfolding new_conversation_window_memory new_conversation_buffer_memory add_to_window delete
    with_memory without
oldest_gone = refl
