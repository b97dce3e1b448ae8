-- ===== src/Llm/Examples.antt =====
-- Concrete runs of the model clients, the fallback client and the conversations of internal/llm.
use cryptofunk.Prelude.{
  ℕ, ◌≤◌, ◌<◌, ◌≡◌, ◌≢◌, ◌↔◌, ◌⊎◌, refl, pos, String, str_eq, eq_iff, false, Option, none, some,
  List, [], ◌∷◌, ◌++◌, ◌+◌, ◌==◌, if◌then◌else◌, keep, ok, err, arith,
}
use cryptofunk.Llm.Client.{
  ChatMessage, ChatResponse, CallError, failed_after, answered, Gate, passed, Trial, complete,
  complete_with_retry, is_final,
}
use cryptofunk.Llm.Client.Retry.{
  complete-is_final, FirstAnswer, FailsForNow, complete_with_retry_iff,
}
use cryptofunk.Llm.Json.{
  Bytes, extract_first_json_object, extract_json_from_markdown, parse_json_response,
}
use cryptofunk.Llm.Json.Brackets.{IsFirstObject, extract_first_json_object_iff}
use cryptofunk.Llm.Json.Fence.{in_block, parse_json_response-in_block}
use cryptofunk.Llm.Breaker.{CircuitBreaker, CircuitBreakerConfig, new_circuit_breaker}
use cryptofunk.Llm.Breaker.Circuit.{run}
use cryptofunk.Llm.Breaker.Table.{circuit_at, map_circuit, events_of}
use cryptofunk.Llm.Fallback.{
  Call, turns_of, complete_any, Retries, retry_turns, complete_any_with_retry,
}
use cryptofunk.Llm.Fallback.Order.{Serves, complete_any-Serves}
use cryptofunk.Llm.Fallback.Effect.{calls_from, complete_any-circuits}
use cryptofunk.Llm.Conversation.{
  ConversationMemory, ConversationConfig, new_conversation, is_system, is_other, tokens,
  estimate_tokens, get_messages_for_prompt,
}
use cryptofunk.Llm.Conversation.Retention.{
  Added, added_messages, add_all, Keeps, IsBounded, add_all-Keeps,
}
use cryptofunk.Llm.Conversation.Prompt.{get_messages_for_prompt-longest}
use cryptofunk.Llm.Manager.{
  ConversationManager, new_conversation_manager, conversation_not_found, create_conversation,
  get_conversation, remove_conversation,
}
use cryptofunk.Llm.Manager.Keys.{remove_older-loses_name}

-- The answer of a model, without choices.
abbrev response : ChatResponse
response = record {
  id = "r1";
  object = "chat.completion";
  created = pos 0;
  model = "m";
  choices = [];
  usage = record { prompt_tokens = pos 7; completion_tokens = pos 3; total_tokens = pos 10 };
}

abbrev overloaded : ℕ
overloaded = 503

abbrev busy : Gate
busy = passed (answered overloaded "busy" none none)

abbrev served : Gate
served = passed (answered 200 "{}" none (some response))

complete-is_final_example :
    (e : CallError) × (complete busy ≡ err e)
    × ((is_final e ≡ false) ↔ ((overloaded ≡ 429) ⊎ ((500 ≤ overloaded) × (overloaded < 600))))
complete-is_final_example = complete-is_final overloaded "busy" none none (ground arith)

-- The second attempt is answered.
abbrev second_time : ℕ → Trial
second_time k = record { cancelled = false; gate = if k == 1 then served else busy }

complete_with_retry_iff_example :
    ((complete_with_retry (pos 2) second_time ≡ ok response) ↔ FirstAnswer second_time 0 3 response)
    × (((e : CallError) × (complete_with_retry (pos 2) second_time ≡ err (failed_after (pos 2) e)))
        ↔ ((j : ℕ) → j ≤ 2 → FailsForNow second_time j))
complete_with_retry_iff_example = complete_with_retry_iff 2 second_time response

-- A trimming that leaves its argument as it is, and a decoder that reads every text.
abbrev no_trim : Bytes → Bytes
no_trim s = s

abbrev any_text : Bytes → Option Bytes
any_text s = some s

abbrev object : Bytes
object = b'{' ∷ b'}' ∷ []

extract_first_json_object_iff_example :
    (extract_first_json_object no_trim (b'a' ∷ b'{' ∷ b'}' ∷ b'}' ∷ []) ≡ object)
    ↔ IsFirstObject (b'a' ∷ b'{' ∷ b'}' ∷ b'}' ∷ []) object
extract_first_json_object_iff_example =
    extract_first_json_object_iff no_trim (b'a' ∷ b'{' ∷ b'}' ∷ b'}' ∷ []) object (ground arith)

parse_json_response-in_block_example :
    (extract_json_from_markdown no_trim (in_block (b'a' ∷ []) object (b'z' ∷ [])) ≡ object)
    × (parse_json_response no_trim any_text (in_block (b'a' ∷ []) object (b'z' ∷ [])) ≡ some object)
parse_json_response-in_block_example =
    parse_json_response-in_block no_trim any_text (b'a' ∷ []) object (b'z' ∷ []) object
      (ground arith) (ground arith) refl refl

abbrev config : CircuitBreakerConfig
config = record { failure_threshold = 2; success_threshold = 1; timeout = 60; time_window = 300 }

abbrev breaker : CircuitBreaker
breaker = new_circuit_breaker 2 config

abbrev calls : List Call
calls =
    record { asked_at = 10; gate = busy; recorded_at = 11 }
    ∷ record { asked_at = 12; gate = served; recorded_at = 13 }
    ∷ []

complete_any-Serves_example :
    ((complete_any calls breaker).1 ≡ ok response) ↔ Serves breaker 0 (turns_of calls) response
complete_any-Serves_example = complete_any-Serves calls breaker response

abbrev retries : List Retries
retries = record { asked_at = 10; trials = second_time; recorded_at = 11 } ∷ []

complete_any-circuits_example :
    (circuit_at (pos 0) (complete_any calls breaker).0
      ≡ map_circuit
          (run breaker.config (events_of (pos 0) (calls_from breaker 0 (turns_of calls))))
          (circuit_at (pos 0) breaker))
    × (circuit_at (pos 0) (complete_any_with_retry (pos 1) retries breaker).0
        ≡ map_circuit
            (run breaker.config
              (events_of (pos 0) (calls_from breaker 0 (retry_turns (pos 1) retries))))
            (circuit_at (pos 0) breaker))
complete_any-circuits_example = complete_any-circuits calls (pos 1) retries breaker (pos 0)

abbrev conversation_config : ConversationConfig ℕ
conversation_config = record {
  agent_name = "trend";
  max_tokens = 5;
  max_messages = 2;
  metadata = none;
}

abbrev talk : List Added
talk = (1, "system", "be brief") ∷ (2, "user", "buy?") ∷ (3, "assistant", "no") ∷ []

add_all-Keeps_example :
    Keeps
      (added_messages talk)
      (add_all talk (new_conversation 0 "id" conversation_config)).messages
    × IsBounded 2 (add_all talk (new_conversation 0 "id" conversation_config)).messages
add_all-Keeps_example = add_all-Keeps 0 "id" conversation_config talk

abbrev conversation : ConversationMemory ℕ
conversation = record {
  id = "id";
  agent_name = "trend";
  messages =
      record { role = "system"; content = "be brief" }
      ∷ record { role = "user"; content = "shall we buy or sell" }
      ∷ record { role = "assistant"; content = "hold it" }
      ∷ [];
  metadata = [];
  max_tokens = 4;
  max_messages = 20;
  created_at = 0;
  updated_at = 3;
}

get_messages_for_prompt-longest_example :
    let systems = keep is_system conversation.messages in
    (older : List ChatMessage) × (recent : List ChatMessage) × (keep is_other conversation.messages
      ≡ older ++ recent)
    × (get_messages_for_prompt conversation ≡ systems ++ recent)
    × ((recent ≡ []) ⊎ (tokens (get_messages_for_prompt conversation) ≤ 4))
    × ((before : List ChatMessage) (m : ChatMessage)
        → older ≡ before ++ m ∷ []
        → 4 < tokens (get_messages_for_prompt conversation) + estimate_tokens m.content)
get_messages_for_prompt-longest_example = get_messages_for_prompt-longest conversation

abbrev manager : ConversationManager ℕ
manager = new_conversation_manager

abbrev one_conversation : ConversationManager ℕ
one_conversation = (create_conversation 1 "id1" conversation_config manager).0

names_differ : (k j : String) → str_eq k j ≡ false → k ≢ j
names_differ k j h e = ground (arith, eq_iff k j)

remove_older-loses_name_example :
    let (cm1, place1) = create_conversation 1 "id1" conversation_config manager in
    let (cm2, place2) = create_conversation 2 "id2" conversation_config cm1 in
    let (cm3, result) = remove_conversation "id1" cm2 in
    (result ≡ ok tt)
    × (get_conversation "trend" cm2 ≡ ok place2)
    × (get_conversation "trend" cm3 ≡ err (conversation_not_found "trend"))
    × (get_conversation "id2" cm3 ≡ ok place2)
remove_older-loses_name_example =
    remove_older-loses_name 1 2 "id1" "id2" "trend" conversation_config conversation_config manager
      refl refl (names_differ "id1" "id2" refl) (names_differ "id1" "trend" refl)
      (names_differ "id2" "trend" refl)
