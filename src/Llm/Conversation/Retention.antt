-- ===== src/Llm/Conversation/Retention.antt =====
-- What `AddMessage` and `trimMessages` of internal/llm/conversation.go keep of a conversation.
use cryptofunk.Prelude.{
  ℕ, ◌-◌, ◌≤◌, ◌<◌, ◌≡◌, ◌⊎◌, refl, sym, ap, subst, ◌∙◌, inl, inr, String, true, List, [], ◌∷◌,
  ◌++◌, ltb, arith, Bool-cases, length, keep, All, length-append, length-drop, keep-append,
}
use cryptofunk.Prelude.Keep.{
  All-keep, All-drop, keep_self, keep-nil, keep-not_nil, length-keep_split, drop-suffix,
}
use mathlib.Core.List.{append-nil, append_assoc}
use cryptofunk.Llm.Client.{ChatMessage}
use cryptofunk.Llm.Conversation.{
  ConversationMemory, is_system, is_other, max_other, most_recent, trim_messages, add_message,
  ConversationConfig, new_conversation, or_default,
}

module _ {A : Type 0} where
  most_recent-suffix : (n : ℕ) (xs : List A) → (pre : List A) × (xs ≡ pre ++ most_recent n xs)
  most_recent-suffix n xs = elim (Bool-cases (ltb n (length xs))) [
    | inl e ↦ rw e (drop-suffix (length xs - n) xs)
    | inr e ↦ rw e ([], refl)
  ]

  All-most_recent : (P : A → Type 0) (n : ℕ) (xs : List A) → All P xs → All P (most_recent n xs)
  All-most_recent P n xs h = elim (Bool-cases (ltb n (length xs))) [
    | inl e ↦ rw e (All-drop P (length xs - n) xs h)
    | inr e ↦ rw e h
  ]

  -- `n` elements are kept, or all if there are fewer.
  length-most_recent :
      (n : ℕ) (xs : List A)
      → (length (most_recent n xs) ≤ n)
        × (length (most_recent n xs) ≤ length xs)
        × (0 < n → 0 < length xs → 0 < length (most_recent n xs))
  length-most_recent n xs = elim (Bool-cases (ltb n (length xs))) [
    | inl e ↦ rw e (grind (arith, length-drop (length xs - n) xs))
    | inr e ↦ rw e (ground arith, ground arith, λ h k. k)
  ]

-- What a conversation keeps of a history: every system message, in order, and the most recent of
-- the other messages, in order, at least one if there was any.
pub record Keeps (h ms : List ChatMessage) : Type 0 where
  pub systems : keep is_system ms ≡ keep is_system h
  pub others : (pre : List ChatMessage) × (keep is_other h ≡ pre ++ keep is_other ms)
  pub newest : 0 < length (keep is_other h) → 0 < length (keep is_other ms)

-- No more messages than the limit, or a single one beside the system messages.
abbrev pub IsBounded : ℕ → List ChatMessage → Type 0
IsBounded max ms = (length ms ≤ max) ⊎ (length (keep is_other ms) ≤ 1)

systems-trim :
    (max : ℕ) (all : List ChatMessage) → keep is_system (trim_messages max all) ≡ keep is_system all
unfolding trim_messages
systems-trim max all =
    let systems = keep is_system all in
    let recents = most_recent (max_other max (length systems)) (keep is_other all) in
    keep-append is_system systems recents
    ∙ ap (λ r. r ++ keep is_system recents) (keep_self is_system systems (All-keep is_system all))
    ∙ ap (λ r. systems ++ r)
        (keep-nil is_system recents (
          All-most_recent (λ x. is_other x ≡ true) (max_other max (length systems))
            (keep is_other all) (All-keep is_other all)))
    ∙ append-nil systems

others-trim :
    (max : ℕ) (all : List ChatMessage)
    → keep is_other (trim_messages max all)
      ≡ most_recent (max_other max (length (keep is_system all))) (keep is_other all)
unfolding trim_messages
others-trim max all =
    let systems = keep is_system all in
    let recents = most_recent (max_other max (length systems)) (keep is_other all) in
    keep-append is_other systems recents
    ∙ ap (λ r. r ++ keep is_other recents) (keep-not_nil is_system systems (All-keep is_system all))
    ∙ keep_self is_other recents (
        All-most_recent (λ x. is_other x ≡ true) (max_other max (length systems))
          (keep is_other all) (All-keep is_other all))

trim-Keeps :
    (max : ℕ) (all : List ChatMessage)
    → Keeps all (trim_messages max all) × IsBounded max (trim_messages max all)
trim-Keeps max all =
    let s = length (keep is_system all) in
    let n = max_other max s in
    let others = keep is_other all in
    let split = length-keep_split is_system (trim_messages max all) in
    let systems = systems-trim max all in
    let kept = others-trim max all in
    let (at_most, fewer, some_left) = length-most_recent n others in
    let (pre, parts) = most_recent-suffix n others in
    (
      record {
        systems = systems;
        others = (pre, parts ∙ ap (λ r. pre ++ r) (sym kept));
        newest = λ h. rw kept (some_left (ground arith) h);
      },
      ground (arith, ap length systems, ap length kept, split, at_most),
    )

Keeps-trans : (h all ms : List ChatMessage) → Keeps h all → Keeps all ms → Keeps h ms
Keeps-trans h all ms a b =
    let (p, e) = a.others in
    let (q, f) = b.others in
    record {
      systems = b.systems ∙ a.systems;
      others = (p ++ q, e ∙ ap (λ r. p ++ r) f ∙ sym (append_assoc p q (keep is_other ms)));
      newest = λ z. b.newest (a.newest z);
    }

Keeps-append : (h ms new : List ChatMessage) → Keeps h ms → Keeps (h ++ new) (ms ++ new)
Keeps-append h ms new a =
    let (p, e) = a.others in
    let split_h = keep-append is_other h new in
    let split_ms = keep-append is_other ms new in
    record {
      systems =
          keep-append is_system ms new
          ∙ ap (λ r. r ++ keep is_system new) a.systems
          ∙ sym (keep-append is_system h new);
      others = (
        p,
        split_h
            ∙ ap (λ r. r ++ keep is_other new) e
            ∙ append_assoc p (keep is_other ms) (keep is_other new)
            ∙ ap (λ r. p ++ r) (sym split_ms),
      );
      newest = λ z. grind (
        arith,
        a.newest,
        ap length split_h,
        ap length split_ms,
        length-append (keep is_other h) (keep is_other new),
        length-append (keep is_other ms) (keep is_other new),
      );
    }

-- A message as it is added: its time, role and content.
abbrev pub Added : Type 0
Added = ℕ × String × String

abbrev pub message_of : Added → ChatMessage
message_of (now, role, content) = record { role = role; content = content }

pub added_messages : List Added → List ChatMessage
added_messages [] = []
added_messages (a ∷ as_) = message_of a ∷ added_messages as_

module _ {V : Type 0} where
  pub add_all : List Added → ConversationMemory V → ConversationMemory V
  add_all [] cm = cm
  add_all ((now, role, content) ∷ rest) cm = add_all rest (add_message now role content cm)

  abbrev Retains : List ChatMessage → ConversationMemory V → Type 0
  Retains h cm = Keeps h cm.messages × IsBounded cm.max_messages cm.messages

  add_message-Retains :
      (a : Added) (h : List ChatMessage) (cm : ConversationMemory V)
      → Keeps h cm.messages
      → Retains (h ++ message_of a ∷ []) (add_message a.0 a.1 a.2 cm)
  unfolding add_message
  add_message-Retains a h cm k =
      let all = cm.messages ++ message_of a ∷ [] in
      let appended = Keeps-append h cm.messages (message_of a ∷ []) k in
      let (trimmed, bounded) = trim-Keeps cm.max_messages all in
      elim (Bool-cases (ltb cm.max_messages (length all))) [
        | inl e ↦ rw e (Keeps-trans (h ++ message_of a ∷ []) all _ appended trimmed, bounded)
        | inr e ↦ rw e (appended, ground arith)
      ]

  add_all-Retains :
      (log : List Added) (h : List ChatMessage) (cm : ConversationMemory V)
      → Retains h cm
      → Retains (h ++ added_messages log) (add_all log cm)
        × ((add_all log cm).max_messages ≡ cm.max_messages)
  unfolding add_all added_messages
  add_all-Retains [] h cm r = (rw (append-nil h) r, refl)
  add_all-Retains (a ∷ log) h cm r =
      let (kept, same) =
        add_all-Retains log (h ++ message_of a ∷ []) (add_message a.0 a.1 a.2 cm)
          (add_message-Retains a h cm r.0) in
      (
        subst (λ (x : List ChatMessage). Retains x (add_all log (add_message a.0 a.1 a.2 cm)))
            (append_assoc h (message_of a ∷ []) (added_messages log)) kept,
        same ∙ (unfold add_message in refl),
      )

-- A conversation that starts empty, after any messages are added to it: all its system messages
-- are kept, in order; of the other messages the most recent are kept, in order, at least the last
-- one; and it holds no more messages than its limit, 20 if that is not set, or else only one
-- beside the system messages.
pub add_all-Keeps :
    {V : Type 0} (now : ℕ) (id : String) (config : ConversationConfig V) (log : List Added)
    → Keeps (added_messages log) (add_all log (new_conversation now id config)).messages
      × IsBounded
          (or_default config.max_messages 20)
          (add_all log (new_conversation now id config)).messages
add_all-Keeps now id config log =
    let ((kept, bounded), same) = add_all-Retains log [] (new_conversation now id config) (
      unfold new_conversation in
      (record { systems = refl; others = ([], refl); newest = λ z. z }, ground arith)) in
    (
      kept,
      subst (λ (n : ℕ). IsBounded n (add_all log (new_conversation now id config)).messages)
          (same ∙ (unfold new_conversation in refl)) bounded,
    )
