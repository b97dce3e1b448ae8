-- ===== src/Llm/Manager/Again.antt =====
-- GetOrCreateConversation of internal/llm/conversation.go, called again.
use cryptofunk.Prelude.{
  ℕ, ◌≡◌, refl, sym, ◌∙◌, inl, inr, Option-cases, Bool-cases, String, none, some, ok, err, str_eq,
  eq_iff, length,
}
use cryptofunk.Prelude.Dict.{lookup, lookup-insert}
use cryptofunk.Llm.Conversation.{default_conversation_config}
use cryptofunk.Llm.Manager.{
  ConversationManager, conversation_not_found, create_conversation, get_conversation,
  get_or_create_conversation,
}
use cryptofunk.Llm.Manager.Keys.{or_not_found-some, or_not_found-none}

module _ {V : Type 0} (t : ℕ) (id name : String) (cm : ConversationManager V) where
  found_again :
      (place : ℕ)
      → lookup name cm.conversations ≡ some place
      → get_or_create_conversation t id name cm ≡ (cm, place)
  unfolding get_or_create_conversation
  found_again place e = rw (e, get_or_create_conversation) refl

  made_new :
      lookup name cm.conversations ≡ none
      → get_or_create_conversation t id name cm
        ≡ create_conversation t id (default_conversation_config name) cm
  unfolding get_or_create_conversation
  made_new e = rw (e, get_or_create_conversation) refl

  named_new :
      let (cm', place) = create_conversation t id (default_conversation_config name) cm in
      lookup name cm'.conversations ≡ some place
  unfolding create_conversation default_conversation_config
  named_new =
      let inner =
        lookup-insert name name (length cm.store) cm.conversations
        ∙ rw ((eq_iff name name).1 refl) refl in
      lookup-insert id name (length cm.store) _
      ∙ elim (Bool-cases (str_eq id name)) [ inl e ↦ rw e refl | inr e ↦ rw e inner ]

-- Asking for an agent's conversation twice gives the same one, and the second time changes
-- nothing; it is the one that the agent's name leads to. If the name led to one before, the first
-- time changes nothing either.
pub get_or_create_conversation-again :
    {V : Type 0} (t u : ℕ) (id1 id2 name : String) (cm : ConversationManager V)
    → let (cm', place) = get_or_create_conversation t id1 name cm in
      (get_or_create_conversation u id2 name cm' ≡ (cm', place))
      × (get_conversation name cm' ≡ ok place)
      × ((p : ℕ) → get_conversation name cm ≡ ok p → (cm' ≡ cm) × (place ≡ p))
get_or_create_conversation-again t u id1 id2 name cm =
    elim (Option-cases (lookup name cm.conversations)) [
      | inr (place, e) ↦ rw (found_again t id1 name cm place e) (
        found_again u id2 name cm place e,
        or_not_found-some name place cm e,
        λ p h.
            let same : ok place ≡ ok p = sym (or_not_found-some name place cm e) ∙ h in (refl, cc),
      )
      | inl e ↦
          let (cm', place) = create_conversation t id1 (default_conversation_config name) cm in
          let l : lookup name cm'.conversations ≡ some place = named_new t id1 name cm in
          rw (made_new t id1 name cm e) (
            found_again u id2 name cm' place l,
            or_not_found-some name place cm' l,
            λ p h.
                let clash : err (conversation_not_found name) ≡ ok p =
                  sym (or_not_found-none name cm e) ∙ h in
                cc,
          )
    ]
