-- ===== src/Llm/Manager/Keys.antt =====
-- The two keys of a conversation in the manager's map (internal/llm/conversation.go).
use cryptofunk.Prelude.{
  ℕ, ◌≡◌, ◌≢◌, refl, ap, ◌∙◌, inl, inr, ◌⊎◌, Option-cases, String, none, some, [], ◌∷◌, arith,
  length, get_elem?, get_elem?-append, get_elem?-append_left, ok, err, str_eq, eq_iff,
  if◌then◌else◌,
}
use cryptofunk.Prelude.Dict.{Dict, lookup, insert, erase, lookup-insert, lookup-erase}
use cryptofunk.Llm.Conversation.{ConversationMemory, ConversationConfig, new_conversation}
use cryptofunk.Llm.Manager.{
  ConversationManager, conversation_not_found, create_conversation, get_conversation,
  conversation_of, remove_conversation,
}

module _ {V : Type 0} (now : ℕ) (id : String) (config : ConversationConfig V) where
  -- A new conversation is found under its agent's name and under its id, and both keys lead to the
  -- same one; every other key leads where it did.
  pub create-get :
      (cm : ConversationManager V)
      → let (cm', place) = create_conversation now id config cm in
        (get_conversation config.agent_name cm' ≡ ok place)
        × (get_conversation id cm' ≡ ok place)
        × (get_elem? cm'.store place ≡ some (new_conversation now id config))
        × ((key : String)
            → key ≢ config.agent_name
            → key ≢ id
            → get_conversation key cm' ≡ get_conversation key cm)
  unfolding create_conversation get_conversation
  create-get cm = (
    ground (
      arith,
      lookup-insert id config.agent_name place named,
      lookup-insert config.agent_name config.agent_name place cm.conversations,
      eq_iff id config.agent_name,
      eq_iff config.agent_name config.agent_name,
    ),
    ground (arith, lookup-insert id id place named, eq_iff id id),
    get_elem?-append cm.store (new_conversation now id config),
    λ key n m. ground (
      arith,
      lookup-insert id key place named,
      lookup-insert config.agent_name key place cm.conversations,
      eq_iff id key,
      eq_iff config.agent_name key,
    ),
  )
    where
      place : ℕ
      place = length cm.store

      named : Dict ℕ
      named = insert config.agent_name place cm.conversations

lookup-erase_two :
    (a b key : String) (m : Dict ℕ)
    → lookup key (erase a (erase b m))
      ≡ (if str_eq a key then none else if str_eq b key then none else lookup key m)
lookup-erase_two a b key m = rw lookup-erase (rw lookup-erase)

module _ {V : Type 0} where
  remove-erase :
      (key : String) (c : ConversationMemory V) (cm : ConversationManager V)
      → conversation_of key cm ≡ some c
      → remove_conversation key cm
        ≡ (record cm { conversations = erase c.id (erase c.agent_name cm.conversations) }, ok tt)
  unfolding remove_conversation
  remove-erase key c cm e = rw (e, remove_conversation)

  -- Removing by a key that leads to a conversation frees that conversation's name and id, both,
  -- and no other key; removing by any other key is refused and changes nothing.
  pub remove-get :
      (key : String) (cm : ConversationManager V)
      → ((conversation_of key cm ≡ none)
          × (remove_conversation key cm ≡ (cm, err (conversation_not_found key))))
        ⊎ ((c : ConversationMemory V) × (conversation_of key cm ≡ some c)
            × ((remove_conversation key cm).1 ≡ ok tt)
            × ((other : String)
                → get_conversation other (remove_conversation key cm).0 ≡ (
                    if str_eq c.id other
                    then err (conversation_not_found other)
                    else if str_eq c.agent_name other
                    then err (conversation_not_found other)
                    else get_conversation other cm)))
  unfolding get_conversation
  remove-get key cm = elim (Option-cases (conversation_of key cm)) [
    | inl e ↦ inl (e, unfold remove_conversation in rw (e, remove_conversation))
    | inr (c, e) ↦ inr (
      c,
      e,
      ap (λ p. p.1) (remove-erase key c cm e),
      λ other.
          rw (remove-erase key c cm e)
            (ground (arith, lookup-erase_two c.id c.agent_name other cm.conversations)),
    )
  ]

-- The map after two conversations of one agent were made, at the places `p` and `q`.
module _ (id1 id2 name : String) (p q : ℕ) (m : Dict ℕ) where
  abbrev two_made : Dict ℕ
  two_made = insert id2 q (insert name q (insert id1 p (insert name p m)))

  two_made-older : id1 ≢ id2 → id1 ≢ name → lookup id1 two_made ≡ some p
  two_made-older n1 n2 = rw lookup-insert (
      rw lookup-insert
        (rw lookup-insert (ground (arith, eq_iff id2 id1, eq_iff name id1, eq_iff id1 id1))))

  two_made-name : id2 ≢ name → lookup name two_made ≡ some q
  two_made-name n =
      rw lookup-insert (rw lookup-insert (ground (arith, eq_iff id2 name, eq_iff name name)))

  two_made-newer : id1 ≢ id2 → id2 ≢ name → lookup id2 (erase id1 (erase name two_made)) ≡ some q
  two_made-newer n1 n2 =
      lookup-erase_two id1 name id2 two_made
      ∙ rw lookup-insert (ground (arith, eq_iff id1 id2, eq_iff name id2, eq_iff id2 id2))

conversation_of-lookup :
    {V : Type 0} (key : String) (p : ℕ) (cm : ConversationManager V)
    → lookup key cm.conversations ≡ some p
    → conversation_of key cm ≡ get_elem? cm.store p
unfolding conversation_of
conversation_of-lookup key p cm e = rw (e, conversation_of)

pub or_not_found-some :
    {V : Type 0} (key : String) (p : ℕ) (cm : ConversationManager V)
    → lookup key cm.conversations ≡ some p
    → get_conversation key cm ≡ ok p
unfolding get_conversation
or_not_found-some key p cm e = rw e

pub or_not_found-none :
    {V : Type 0} (key : String) (cm : ConversationManager V)
    → lookup key cm.conversations ≡ none
    → get_conversation key cm ≡ err (conversation_not_found key)
unfolding get_conversation
or_not_found-none key cm e = rw e

-- Two conversations of one agent: if the older one is removed by its id, the agent's name, which
-- leads to the newer one, is freed with it, although the newer one is still there under its id.
pub remove_older-loses_name :
    {V : Type 0} (t u : ℕ) (id1 id2 name : String) (first second : ConversationConfig V)
    (cm : ConversationManager V)
    → first.agent_name ≡ name
    → second.agent_name ≡ name
    → id1 ≢ id2
    → id1 ≢ name
    → id2 ≢ name
    → let (cm1, place1) = create_conversation t id1 first cm in
      let (cm2, place2) = create_conversation u id2 second cm1 in
      let (cm3, result) = remove_conversation id1 cm2 in
      (result ≡ ok tt)
      × (get_conversation name cm2 ≡ ok place2)
      × (get_conversation name cm3 ≡ err (conversation_not_found name))
      × (get_conversation id2 cm3 ≡ ok place2)
unfolding create_conversation
remove_older-loses_name t u id1 id2 name first second cm e1 e2 ids n1 n2 =
    let c1 = new_conversation t id1 first in
    let cm1 = (create_conversation t id1 first cm).0 in
    let cm2 = (create_conversation u id2 second cm1).0 in
    let p = length cm.store in
    let q = length cm1.store in
    let map_is : cm2.conversations ≡ two_made id1 id2 name p q cm.conversations =
      rw (e1, e2) refl in
    let stored : get_elem? cm2.store p ≡ some c1 =
      get_elem?-append_left cm1.store (new_conversation u id2 second ∷ []) p
        (get_elem?-append cm.store c1) in
    let found : conversation_of id1 cm2 ≡ some c1 =
      conversation_of-lookup id1 p cm2
        (ap (lookup id1) map_is ∙ two_made-older id1 id2 name p q cm.conversations ids n1)
      ∙ stored in
    let removed = remove-erase id1 c1 cm2 found in
    let erased : erase c1.id (erase c1.agent_name cm2.conversations)
        ≡ erase id1 (erase name (two_made id1 id2 name p q cm.conversations)) =
      unfold new_conversation in rw map_is (rw e1 refl) in
    (
      ap (λ r. r.1) removed,
      or_not_found-some name q cm2
          (ap (lookup name) map_is ∙ two_made-name id1 id2 name p q cm.conversations n2),
      ap (λ r. get_conversation name r.0) removed
          ∙ or_not_found-none name _ (
              ap (lookup name) erased
              ∙ lookup-erase_two id1 name name (two_made id1 id2 name p q cm.conversations)
              ∙ ground (arith, eq_iff id1 name, eq_iff name name)),
      ap (λ r. get_conversation id2 r.0) removed
          ∙ or_not_found-some id2 q _
              (ap (lookup id2) erased ∙ two_made-newer id1 id2 name p q cm.conversations ids n2),
    )
