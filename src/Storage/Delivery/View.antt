-- ===== src/Storage/Delivery/View.antt =====
-- What an update changes of the messages, seen one after another through all conversations.
use mathlib.Core.Path.{subst}
use skypier_chat.Prelude.{
  String, ◌≡◌, refl, sym, ◌∙◌, ap, true, false, Option, none, some, List, [], ◌∷◌, ◌++◌, map,
  if◌then◌else◌, ◌==◌, eq_iff, arith, All, All-left, All-right, Bool-cases, Option-cases, inl, inr,
}
use skypier_chat.Prelude.Maps.{Dict}
use skypier_chat.Storage.{PersistedChatState}
use skypier_chat.Protocol.{ChatMessage, DeliveryState}
use skypier_chat.Storage.Delivery.{
  same_delivery, update_first, update_conversations, update_message_delivery, with_message,
  with_conversation, set_messages,
}

-- All messages, conversation after conversation.
abbrev pub messages : Dict (List ChatMessage) → List ChatMessage
messages [] = []
messages ((conv, ms) ∷ m) = ms ++ messages m

-- The delivery state that is shown for a message id: the first message with that id.
abbrev pub delivery_of : List ChatMessage → String → Option DeliveryState
delivery_of [] id = none
delivery_of (m ∷ ms) id = if m.id == id then some m.delivery else delivery_of ms id

-- No id stands twice.
abbrev pub Unseen : String → List ChatMessage → Type 0
Unseen id ms = All (λ m. (m.id == id) ≡ false) ms

abbrev pub IsUnique : List ChatMessage → Type 0
IsUnique [] = Unit
IsUnique (m ∷ ms) = Unseen m.id ms × IsUnique ms

-- `ms` with the delivery state of each message with the id set.
abbrev pub set_delivery : String → DeliveryState → List ChatMessage → List ChatMessage
set_delivery id d = map (λ m. if m.id == id then record m { delivery = d } else m)

same_delivery_eq : (a b : DeliveryState) → same_delivery a b ≡ true → a ≡ b
same_delivery_eq a b h = ground arith

set_delivery-Unseen :
    (id : String) (d : DeliveryState) (ms : List ChatMessage)
    → Unseen id ms
    → set_delivery id d ms ≡ ms
set_delivery-Unseen id d [] h = refl
set_delivery-Unseen id d (m ∷ ms) h = rw (h.0, set_delivery-Unseen id d ms h.1) refl

set_delivery-append :
    (id : String) (d : DeliveryState) (ms ns : List ChatMessage)
    → set_delivery id d (ms ++ ns) ≡ set_delivery id d ms ++ set_delivery id d ns
set_delivery-append id d [] ns = refl
set_delivery-append id d (m ∷ ms) ns = rw (set_delivery-append id d ms ns) refl

IsUnique-left : (ms ns : List ChatMessage) → IsUnique (ms ++ ns) → IsUnique ms
IsUnique-left [] ns h = tt
IsUnique-left (m ∷ ms) ns h = (All-left _ ms ns h.0, IsUnique-left ms ns h.1)

IsUnique-right : (ms ns : List ChatMessage) → IsUnique (ms ++ ns) → IsUnique ns
IsUnique-right [] ns h = h
IsUnique-right (m ∷ ms) ns h = IsUnique-right ms ns h.1

-- What the loop leaves of one conversation's messages.
abbrev kept : List ChatMessage → Option (List ChatMessage) → List ChatMessage
kept ms none = ms
kept ms (some ns) = ns

abbrev kept_all :
    Dict (List ChatMessage) → Option (Dict (List ChatMessage)) → Dict (List ChatMessage)
kept_all m none = m
kept_all m (some m') = m'

kept-with_message :
    (m : ChatMessage) (ms : List ChatMessage) (o : Option (List ChatMessage))
    → kept (m ∷ ms) (with_message m o) ≡ m ∷ kept ms o
kept-with_message m ms none = refl
kept-with_message m ms (some ns) = refl

same_delivery-set :
    (m : ChatMessage) (d : DeliveryState) → m.delivery ≡ d → record m { delivery = d } ≡ m
same_delivery-set m d h = subst (λ x. record m { delivery = x } ≡ m) h refl

kept-update_first :
    (ms : List ChatMessage) (id : String) (d : DeliveryState)
    → IsUnique ms
    → kept ms (update_first ms id d) ≡ set_delivery id d ms
unfolding update_first
kept-update_first [] id d u = refl
kept-update_first (m ∷ ms) id d u = elim (Bool-cases (m.id == id)) [
  | inl same ↦
      let rest : set_delivery id d ms ≡ ms =
        set_delivery-Unseen id d ms (subst (λ x. Unseen x ms) ((eq_iff m.id id).0 same) u.0) in
      elim (Bool-cases (same_delivery m.delivery d)) [
        | inl old ↦
            rw (same, old, rest)
              (rw (same_delivery-set m d (same_delivery_eq m.delivery d old)) refl)
        | inr new ↦ rw (same, new, rest) refl
      ]
  | inr other ↦ rw other (
      kept-with_message m ms (update_first ms id d)
      ∙ ap (λ xs. m ∷ xs) (kept-update_first ms id d u.1))
]

update_first-Unseen :
    (ms ns out : List ChatMessage) (id : String) (d : DeliveryState)
    → IsUnique (ms ++ ns)
    → update_first ms id d ≡ some out
    → Unseen id ns
unfolding update_first
update_first-Unseen [] ns out id d u h = cc
update_first-Unseen (m ∷ ms) ns out id d u h = elim (Bool-cases (m.id == id)) [
  | inl same ↦ subst (λ x. Unseen x ns) ((eq_iff m.id id).0 same) (All-right _ ms ns u.0)
  | inr other ↦ elim (Option-cases (update_first ms id d)) [
    | inl nothing ↦ absurd (ground arith)
    | inr (x, ok) ↦ update_first-Unseen ms ns x id d u.1 ok
  ]
]

messages-with_conversation :
    (conv : String) (ms : List ChatMessage) (m : Dict (List ChatMessage))
    (o : Option (Dict (List ChatMessage)))
    → messages (kept_all ((conv, ms) ∷ m) (with_conversation conv ms o))
      ≡ ms ++ messages (kept_all m o)
messages-with_conversation conv ms m none = refl
messages-with_conversation conv ms m (some m') = refl

messages-update_conversations :
    (m : Dict (List ChatMessage)) (id : String) (d : DeliveryState)
    → IsUnique (messages m)
    → messages (kept_all m (update_conversations m id d)) ≡ set_delivery id d (messages m)
unfolding update_conversations
messages-update_conversations [] id d u = refl
messages-update_conversations ((conv, ms) ∷ m) id d u =
    let here = kept-update_first ms id d (IsUnique-left ms (messages m) u) in
    let split = set_delivery-append id d ms (messages m) in
    elim (Option-cases (update_first ms id d)) [
      | inl none_here ↦
          let same : ms ≡ set_delivery id d ms =
            subst (λ o. kept ms o ≡ set_delivery id d ms) none_here here in
          rw none_here (
            messages-with_conversation conv ms m (update_conversations m id d)
            ∙ ap (λ x. ms ++ x)
                (messages-update_conversations m id d (IsUnique-right ms (messages m) u))
            ∙ ap (λ x. x ++ set_delivery id d (messages m)) same
            ∙ sym split)
      | inr (out, found) ↦
          let new : out ≡ set_delivery id d ms =
            subst (λ o. kept ms o ≡ set_delivery id d ms) found here in
          let rest =
            set_delivery-Unseen id d (messages m)
              (update_first-Unseen ms (messages m) out id d u found) in
          rw found (
            ap (λ x. x ++ messages m) new
            ∙ ap (λ x. set_delivery id d ms ++ x) (sym rest)
            ∙ sym split)
    ]

set_messages-kept_all :
    (s : PersistedChatState) (o : Option (Dict (List ChatMessage)))
    → (set_messages s o).messages_by_conversation ≡ kept_all s.messages_by_conversation o
set_messages-kept_all s none = refl
set_messages-kept_all s (some m) = refl

-- Where no message id stands twice in the stored conversations, an update sets the delivery state
-- of the message with that id, wherever it stands, and changes no other message; where there is no
-- such message it changes none.
pub messages-update_message_delivery :
    (s : PersistedChatState) (id : String) (d : DeliveryState)
    → IsUnique (messages s.messages_by_conversation)
    → messages (update_message_delivery s id d).messages_by_conversation
      ≡ set_delivery id d (messages s.messages_by_conversation)
unfolding update_message_delivery
messages-update_message_delivery s id d u =
    ap messages (set_messages-kept_all s (update_conversations s.messages_by_conversation id d))
    ∙ messages-update_conversations s.messages_by_conversation id d u
