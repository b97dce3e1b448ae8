-- ===== src/Llm/Conversation.antt =====
-- internal/llm/conversation.go, the type ConversationMemory: the messages of one conversation,
-- kept to a number of messages, and the part of them that is sent to a model.
-- `V` stands for the metadata values that the program only stores.
pub mod Retention
pub mod Prompt
use Prim.Native.String.{len, ◌++◌ as ◌+++◌}
use cryptofunk.Prelude.{
  ℕ, suc, ◌+◌, ◌-◌, ◌/◌, String, Bool, true, false, not, Option, none, some, List, [], ◌∷◌, ◌++◌,
  ltb, ◌==◌, str_eq, if◌then◌else◌, length, drop, keep, Result, ok, err,
}
use cryptofunk.Prelude.Dict.{Dict, lookup, insert}
use cryptofunk.Llm.Client.{ChatMessage, ChatResponse, Outcome, completion_failed}
use mathlib.Core.List.{reverse}

pub data MetaValue (V : Type 0) : Type 0 where
  thoughts : List String → MetaValue V
  other : V → MetaValue V

pub record ConversationMemory (V : Type 0) : Type 0 where
  pub id : String
  pub agent_name : String
  pub messages : List ChatMessage
  pub metadata : Dict (MetaValue V)
  pub max_tokens : ℕ
  pub max_messages : ℕ
  pub created_at : ℕ
  pub updated_at : ℕ

-- A nil metadata map is `none`.
pub record ConversationConfig (V : Type 0) : Type 0 where
  pub agent_name : String
  pub max_tokens : ℕ
  pub max_messages : ℕ
  pub metadata : Option (Dict (MetaValue V))

unfoldable pub default_conversation_config : {V : Type 0} → String → ConversationConfig V
default_conversation_config name = record {
  agent_name = name;
  max_tokens = 4000;
  max_messages = 20;
  metadata = some [];
}

abbrev pub or_default : ℕ → ℕ → ℕ
or_default n d = if n == 0 then d else n

abbrev or_new_map : {A : Type 0} → Option (Dict A) → Dict A
or_new_map none = []
or_new_map (some m) = m

unfoldable pub new_conversation :
    {V : Type 0} → ℕ → String → ConversationConfig V → ConversationMemory V
new_conversation now id config = record {
  id = id;
  agent_name = config.agent_name;
  messages = [];
  metadata = or_new_map config.metadata;
  max_tokens = or_default config.max_tokens 4000;
  max_messages = or_default config.max_messages 20;
  created_at = now;
  updated_at = now;
}

abbrev pub is_system : ChatMessage → Bool
is_system m = str_eq m.role "system"

abbrev pub is_other : ChatMessage → Bool
is_other m = not (is_system m)

-- `maxOther`, which is at least 1.
abbrev pub max_other : ℕ → ℕ → ℕ
max_other max_messages systems =
    if ltb (max_messages - systems) 1 then 1 else max_messages - systems

-- The most recent `n` elements.
abbrev pub most_recent : {A : Type 0} → ℕ → List A → List A
most_recent n xs = if ltb n (length xs) then drop (length xs - n) xs else xs

unfoldable pub trim_messages : ℕ → List ChatMessage → List ChatMessage
trim_messages max_messages messages =
    let systems = keep is_system messages in
    systems ++ most_recent (max_other max_messages (length systems)) (keep is_other messages)

module _ {V : Type 0} where
  unfoldable pub add_message : ℕ → String → String → ConversationMemory V → ConversationMemory V
  unfolding trim_messages
  add_message now role content cm =
      let all : List ChatMessage = cm.messages ++ record { role = role; content = content } ∷ [] in
      record cm {
        messages =
            if ltb cm.max_messages (length all) then trim_messages cm.max_messages all else all;
        updated_at = now;
      }

  unfoldable pub add_system_message : ℕ → String → ConversationMemory V → ConversationMemory V
  add_system_message now content cm = add_message now "system" content cm

  unfoldable pub add_user_message : ℕ → String → ConversationMemory V → ConversationMemory V
  add_user_message now content cm = add_message now "user" content cm

  unfoldable pub add_assistant_message : ℕ → String → ConversationMemory V → ConversationMemory V
  add_assistant_message now content cm = add_message now "assistant" content cm

  -- `metadata["thoughts"].([]string)`, with the empty list where that is something else.
  abbrev thoughts_of : Option (MetaValue V) → List String
  thoughts_of (some (thoughts ts)) = ts
  thoughts_of (some (other v)) = []
  thoughts_of none = []

  unfoldable pub get_thoughts : ConversationMemory V → List String
  get_thoughts cm = thoughts_of (lookup "thoughts" cm.metadata)

  -- `AddThought`; `format` is Go's RFC 3339 print of a time. The time of the update is not set.
  unfoldable pub add_thought :
      (ℕ → String) → ℕ → String → ConversationMemory V → ConversationMemory V
  unfolding get_thoughts
  add_thought format now thought cm =
      let line = "[" +++ (format now +++ ("] " +++ thought)) in
      record cm {
        metadata = insert "thoughts" (thoughts (get_thoughts cm ++ line ∷ [])) cm.metadata;
      }

  unfoldable pub set_metadata :
      ℕ → String → MetaValue V → ConversationMemory V → ConversationMemory V
  set_metadata now key value cm = record cm {
    metadata = insert key value cm.metadata;
    updated_at = now;
  }

  unfoldable pub clear : ℕ → ConversationMemory V → ConversationMemory V
  clear now cm = record cm { messages = []; updated_at = now }

  unfoldable pub reset : ℕ → ConversationMemory V → ConversationMemory V
  reset now cm = record cm { messages = []; metadata = []; updated_at = now }

abbrev pub estimate_tokens : String → ℕ
estimate_tokens text = len text / 4

abbrev pub tokens : List ChatMessage → ℕ
tokens [] = 0
tokens (m ∷ ms) = estimate_tokens m.content + tokens ms

-- The loop over the other messages from the newest on: those that fit before the first that does
-- not.
unfoldable pub fitting : ℕ → ℕ → List ChatMessage → List ChatMessage
fitting max_tokens total [] = []
fitting max_tokens total (m ∷ ms) =
    let rest = fitting max_tokens (total + estimate_tokens m.content) ms in
    if ltb max_tokens (total + estimate_tokens m.content) then [] else m ∷ rest

abbrev failed_completion : Outcome → Outcome
failed_completion (ok response) = ok response
failed_completion (err e) = err (completion_failed e)

module _ {V : Type 0} where
  unfoldable pub get_messages_for_prompt : ConversationMemory V → List ChatMessage
  get_messages_for_prompt cm =
      let systems = keep is_system cm.messages in
      systems
      ++ reverse (fitting cm.max_tokens (tokens systems) (reverse (keep is_other cm.messages)))

  after_answer : ℕ → Outcome → ConversationMemory V → ConversationMemory V
  unfolding add_assistant_message
  after_answer now (err e) cm = cm
  after_answer now (ok response) cm = elim response.choices [
    | [] ↦ cm
    | choice ∷ rest ↦ add_assistant_message now choice.message.content cm
  ]

  -- `CompleteWithConversation`, on a client that answers the messages it is sent.
  unfoldable pub complete_with_conversation :
      ℕ
      → ℕ
      → (List ChatMessage → Outcome)
      → String
      → ConversationMemory V
      → ConversationMemory V × Outcome
  unfolding after_answer
  complete_with_conversation asked_at answered_at client user_message cm =
      let asked = add_user_message asked_at user_message cm in
      let outcome = client (get_messages_for_prompt asked) in
      (after_answer answered_at outcome asked, failed_completion outcome)
