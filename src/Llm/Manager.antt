-- ===== src/Llm/Manager.antt =====
-- internal/llm/conversation.go, the type ConversationManager: one map holds each conversation
-- under its agent's name and under its id. The map holds pointers, so the conversations lie in a
-- store and the map holds their places in it. The store has the place of every conversation that
-- was ever made: Go frees those that no map entry and no caller holds.
pub mod Keys
pub mod Again
use cryptofunk.Prelude.{
  ℕ, String, str_eq, Option, none, some, List, [], ◌∷◌, ◌++◌, ◌≡◌, Bool, true, false, ◌||◌, length,
  get_elem?, set, Result, ok, err, ◌==◌, if◌then◌else◌,
}
use cryptofunk.Prelude.Dict.{Dict, lookup, insert, erase}
use cryptofunk.Llm.Conversation.{
  ConversationMemory, ConversationConfig, default_conversation_config, new_conversation,
}

pub data ManagerError : Type 0 where
  conversation_not_found : String → ManagerError

pub record ConversationManager (V : Type 0) : Type 0 where
  pub store : List (ConversationMemory V)
  pub conversations : Dict ℕ

unfoldable pub new_conversation_manager : {V : Type 0} → ConversationManager V
new_conversation_manager = record { store = []; conversations = [] }

or_not_found : {A : Type 0} → String → Option A → Result ManagerError A
or_not_found key none = err (conversation_not_found key)
or_not_found key (some a) = ok a

module _ {V : Type 0} where
  -- `CreateConversation`; the id is the print of a fresh UUID. Its result is a pointer.
  unfoldable pub create_conversation :
      ℕ → String → ConversationConfig V → ConversationManager V → ConversationManager V × ℕ
  create_conversation now id config cm =
      let place = length cm.store in
      (
        record {
          store = cm.store ++ new_conversation now id config ∷ [];
          conversations = insert id place (insert config.agent_name place cm.conversations);
        },
        place,
      )

  unfoldable pub get_conversation : String → ConversationManager V → Result ManagerError ℕ
  unfolding or_not_found
  get_conversation key cm = or_not_found key (lookup key cm.conversations)

  unfoldable pub get_or_create_conversation :
      ℕ → String → String → ConversationManager V → ConversationManager V × ℕ
  get_or_create_conversation now id agent_name cm = elim (lookup agent_name cm.conversations) [
    | some place ↦ (cm, place)
    | none ↦ create_conversation now id (default_conversation_config agent_name) cm
  ]

  -- The conversation that a key of the map leads to.
  unfoldable pub conversation_of : String → ConversationManager V → Option (ConversationMemory V)
  conversation_of key cm = elim (lookup key cm.conversations) [
    | none ↦ none
    | some place ↦ get_elem? cm.store place
  ]

  -- `RemoveConversation` deletes the agent's name and the id of the conversation it finds.
  unfoldable pub remove_conversation :
      String → ConversationManager V → ConversationManager V × Result ManagerError (Unit {0})
  unfolding conversation_of
  remove_conversation key cm = elim (conversation_of key cm) [
    | none ↦ (cm, err (conversation_not_found key))
    | some conv ↦ (
      record cm { conversations = erase conv.id (erase conv.agent_name cm.conversations) },
      ok tt,
    )
  ]

seen_id : String → List String → Bool
seen_id id [] = false
seen_id id (j ∷ js) = str_eq id j || seen_id id js

module _ {V : Type 0} where
  distinct : List String → List (ConversationMemory V) → List (ConversationMemory V)
  unfolding seen_id
  distinct seen [] = []
  distinct seen (c ∷ cs) =
      let known = seen_id c.id seen in
      let rest = distinct (if known then seen else c.id ∷ seen) cs in
      if known then rest else c ∷ rest

  entries : List (ConversationMemory V) → Dict ℕ → List (ConversationMemory V)
  entries store [] = []
  entries store ((key, place) ∷ m) = elim (get_elem? store place) [
    | none ↦ entries store m
    | some c ↦ c ∷ entries store m
  ]

  -- `ListConversations` walks the map, in any order, and lists each id once.
  unfoldable pub list_conversations : ConversationManager V → List (ConversationMemory V)
  unfolding distinct entries
  list_conversations cm = distinct [] (entries cm.store cm.conversations)
