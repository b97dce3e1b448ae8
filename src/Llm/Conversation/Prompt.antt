-- ===== src/Llm/Conversation/Prompt.antt =====
-- What `GetMessagesForPrompt` of internal/llm/conversation.go sends.
use cryptofunk.Prelude.{
  ℕ, ◌+◌, ◌≤◌, ◌<◌, ◌≡◌, ◌⊎◌, refl, sym, ap, ◌∙◌, inl, inr, List, [], ◌∷◌, ◌++◌, ltb, arith,
  Bool-cases, keep, ltb→lt, ltb_false→le,
}
use mathlib.Core.List.{reverse, reverse-append, reverse-reverse}
use cryptofunk.Llm.Client.{ChatMessage}
use cryptofunk.Llm.Conversation.{
  ConversationMemory, is_system, is_other, estimate_tokens, tokens, fitting,
  get_messages_for_prompt,
}

-- `kept` is the longest beginning of a list that fits beside `total` tokens.
record IsLongest (max total : ℕ) (kept dropped : List ChatMessage) : Type 0 where
  fits : (kept ≡ []) ⊎ (total + tokens kept ≤ max)
  full :
      (m : ChatMessage) (rest : List ChatMessage)
      → dropped ≡ m ∷ rest
      → max < total + tokens kept + estimate_tokens m.content

fitting-IsLongest :
    (max total : ℕ) (ms : List ChatMessage)
    → (dropped : List ChatMessage) × (ms ≡ fitting max total ms ++ dropped)
      × IsLongest max total (fitting max total ms) dropped
unfolding fitting
fitting-IsLongest max total [] = ([], refl, record { fits = inl refl; full = λ m rest e. cc })
fitting-IsLongest max total (m ∷ ms) =
    elim (Bool-cases (ltb max (total + estimate_tokens m.content))) [
      | inl over ↦ rw over (
        m ∷ ms,
        refl,
        record {
          fits = inl refl;
          full = λ n rest e. let same : m ≡ n = cc in rw (← same) (omega (arith, ltb→lt _ _ over));
        },
      )
      | inr under ↦
          let (dropped, parts, longest) =
            fitting-IsLongest max (total + estimate_tokens m.content) ms in
          rw under (
            dropped,
            ap (λ r. m ∷ r) parts,
            record {
              fits = inr (fits_more longest.fits (ltb_false→le _ _ under));
              full = λ n rest e. let over = longest.full n rest e in omega (arith, over);
            },
          )
    ]
  where
    fits_more :
        {kept : List ChatMessage}
        → (kept ≡ []) ⊎ (total + estimate_tokens m.content + tokens kept ≤ max)
        → total + estimate_tokens m.content ≤ max
        → total + (estimate_tokens m.content + tokens kept) ≤ max
    fits_more (inl e) l = rw e (omega arith)
    fits_more (inr h) l = omega arith

tokens-append : (xs ys : List ChatMessage) → tokens (xs ++ ys) ≡ tokens xs + tokens ys
tokens-append [] ys = omega arith
tokens-append (x ∷ xs) ys = omega (arith, tokens-append xs ys)

tokens-reverse : (xs : List ChatMessage) → tokens (reverse xs) ≡ tokens xs
tokens-reverse [] = refl
tokens-reverse (x ∷ xs) =
    ap tokens (reverse-append (x ∷ []) xs)
    ∙ tokens-append (reverse xs) (x ∷ [])
    ∙ omega (arith, tokens-reverse xs)

-- A prompt is all system messages followed by the most recent other messages, in order: as many
-- as fit. Unless it is the system messages alone, its estimated tokens are within the limit, and
-- the next older message would pass the limit.
pub get_messages_for_prompt-longest :
    {V : Type 0} (cm : ConversationMemory V)
    → let systems = keep is_system cm.messages in
      (older : List ChatMessage) × (recent : List ChatMessage) × (keep is_other cm.messages
        ≡ older ++ recent)
      × (get_messages_for_prompt cm ≡ systems ++ recent)
      × ((recent ≡ []) ⊎ (tokens (get_messages_for_prompt cm) ≤ cm.max_tokens))
      × ((before : List ChatMessage) (m : ChatMessage)
          → older ≡ before ++ m ∷ []
          → cm.max_tokens < tokens (get_messages_for_prompt cm) + estimate_tokens m.content)
unfolding get_messages_for_prompt
get_messages_for_prompt-longest cm =
    let systems = keep is_system cm.messages in
    let others = keep is_other cm.messages in
    let kept = fitting cm.max_tokens (tokens systems) (reverse others) in
    let (dropped, parts, longest) =
      fitting-IsLongest cm.max_tokens (tokens systems) (reverse others) in
    let total : tokens (systems ++ reverse kept) ≡ tokens systems + tokens kept =
      omega (arith, tokens-append systems (reverse kept), tokens-reverse kept) in
    (
      reverse dropped,
      reverse kept,
      sym (reverse-reverse others) ∙ ap reverse parts ∙ reverse-append kept dropped,
      refl,
      nothing_or_fits kept (systems ++ reverse kept) (tokens systems) longest.fits total,
      λ before m e.
          let over =
            longest.full m (reverse before)
              (sym (reverse-reverse dropped) ∙ ap reverse e ∙ reverse-append before (m ∷ [])) in
          omega (arith, over, total),
    )
  where
    nothing_or_fits :
        (kept prompt : List ChatMessage) (total : ℕ)
        → (kept ≡ []) ⊎ (total + tokens kept ≤ cm.max_tokens)
        → tokens prompt ≡ total + tokens kept
        → (reverse kept ≡ []) ⊎ (tokens prompt ≤ cm.max_tokens)
    nothing_or_fits kept prompt total (inl e) t = inl (ap reverse e)
    nothing_or_fits kept prompt total (inr h) t = inr (omega (arith, h, t))
