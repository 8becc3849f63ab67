-- ===== src/Controller/Inbound/Unique.antt =====
-- The messages of a conversation have different identifiers, with or without the network's prefix.
use skypier_chat.Prelude.{
  ℕ, zero, suc, ◌-◌, String, ◌==◌, eq_iff, ◌≡◌, refl, ◌∙◌, Bool, false, ◌||◌, List, [], ◌∷◌, any,
  find, length, leb, arith, Bool-cases, inl, inr,
}
use skypier_chat.Prelude.Maps.{get-put}
use skypier_chat.Protocol.{Conversation, ChatMessage, WireEnvelope}
use skypier_chat.Controller.{message_ids_match, normalize_network_message_id}
use skypier_chat.Controller.Conversations.{
  ControllerState, from_place, cap_conversation_messages, contacts_of,
  max_messages_per_conversation,
}
use skypier_chat.Controller.Inbound.{
  Content, insert_message, sort_messages, push, messages_in, place_messages, ingest_message,
  is_chronological, existing_conversation, incoming_message, conversation_list, conversation_for,
}

abbrev pub has_id : String → ChatMessage → Bool
has_id id m = message_ids_match m.id id

abbrev pub IsUnique : List ChatMessage → Type 0
IsUnique [] = Unit
IsUnique (m ∷ ms) = any (has_id m.id) ms ≡ false × IsUnique ms

abbrev pub HasUniqueIds : ControllerState → Type 0
HasUniqueIds s = (k : String) → IsUnique (messages_in s.snap k)

message_ids_match_sym :
    (a b : String) → message_ids_match a b ≡ false → message_ids_match b a ≡ false
unfolding message_ids_match
message_ids_match_sym a b h = ground (
  arith,
  h,
  eq_iff a b,
  eq_iff b a,
  eq_iff (normalize_network_message_id a) (normalize_network_message_id b),
  eq_iff (normalize_network_message_id b) (normalize_network_message_id a),
)

pub any-push :
    (p : ChatMessage → Bool) (ms : List ChatMessage) (m : ChatMessage)
    → any p (push ms m) ≡ (any p ms || p m)
any-push p [] m = ground arith
any-push p (n ∷ ns) m = ground (arith, any-push p ns m)

IsUnique-push :
    (ms : List ChatMessage) (m : ChatMessage)
    → any (has_id m.id) ms ≡ false
    → IsUnique ms
    → IsUnique (push ms m)
IsUnique-push [] m h u = (refl, tt)
IsUnique-push (n ∷ ns) m h (new, u) = (
  ground (
    arith,
    new,
    any-push (has_id n.id) ns m,
    message_ids_match_sym n.id m.id (ground (arith, h)),
  ),
  IsUnique-push ns m (ground (arith, h)) u,
)

IsUnique-from_place : (n : ℕ) (ms : List ChatMessage) → IsUnique ms → IsUnique (from_place n ms)
IsUnique-from_place zero ms u = u
IsUnique-from_place (suc n) [] u = tt
IsUnique-from_place (suc n) (m ∷ ms) u = IsUnique-from_place n ms u.1

IsUnique-cap : (ms : List ChatMessage) → IsUnique ms → IsUnique (cap_conversation_messages ms)
unfolding cap_conversation_messages
IsUnique-cap ms u = elim (Bool-cases (leb (length ms) max_messages_per_conversation)) [
  | inl small ↦ rw small u
  | inr large ↦ rw large (IsUnique-from_place (length ms - max_messages_per_conversation) ms u)
]

module _ (first : ChatMessage → ChatMessage → Bool) where
  any-insert_message :
      (p : ChatMessage → Bool) (m : ChatMessage) (ms : List ChatMessage)
      → any p (insert_message first m ms) ≡ (p m || any p ms)
  any-insert_message p m [] = ground arith
  any-insert_message p m (n ∷ ns) = ground (arith, any-insert_message p m ns)

  pub any-sort_messages :
      (p : ChatMessage → Bool) (ms : List ChatMessage) → any p (sort_messages first ms) ≡ any p ms
  any-sort_messages p [] = refl
  any-sort_messages p (m ∷ ms) =
      ground (arith, any-insert_message p m (sort_messages first ms), any-sort_messages p ms)

  IsUnique-insert_message :
      (m : ChatMessage) (ms : List ChatMessage)
      → any (has_id m.id) ms ≡ false
      → IsUnique ms
      → IsUnique (insert_message first m ms)
  IsUnique-insert_message m [] h u = (refl, tt)
  IsUnique-insert_message m (n ∷ ns) h u = elim (Bool-cases (first m n)) [
    | inl here ↦ rw here (h, u)
    | inr later ↦ rw later (
      ground (
        arith,
        u.0,
        any-insert_message (has_id n.id) m ns,
        message_ids_match_sym n.id m.id (ground (arith, h)),
      ),
      IsUnique-insert_message m ns (ground (arith, h)) u.1,
    )
  ]

  IsUnique-sort_messages : (ms : List ChatMessage) → IsUnique ms → IsUnique (sort_messages first ms)
  IsUnique-sort_messages [] u = tt
  IsUnique-sort_messages (m ∷ ms) u =
      IsUnique-insert_message m (sort_messages first ms) (any-sort_messages (has_id m.id) ms ∙ u.0)
        (IsUnique-sort_messages ms u.1)

  -- A message that no message of its conversation matches keeps the identifiers different.
  place_messages_unique :
      (id : String) (m : ChatMessage) (s : ControllerState) (cs : List Conversation)
      → any (has_id m.id) (messages_in s.snap id) ≡ false
      → HasUniqueIds s
      → HasUniqueIds (record s { snap = place_messages first id m s.snap cs })
  place_messages_unique id m s cs new u k =
      let placed =
        cap_conversation_messages (sort_messages first (push (messages_in s.snap id) m)) in
      rw (get-put s.snap.messages_by_conversation id k placed) (elim (Bool-cases (id == k)) [
        | inl same ↦ rw same (
            IsUnique-cap (sort_messages first (push (messages_in s.snap id) m)) (
              IsUnique-sort_messages (push (messages_in s.snap id) m)
                (IsUnique-push (messages_in s.snap id) m new (u id))))
        | inr other ↦ rw other (u k)
      ])

-- Where the identifiers of each conversation's messages differ, also beside the network's prefix, they
-- still do after any message has come in.
pub ingest_message-HasUniqueIds :
    (e : WireEnvelope) (from : String) (content : Content) (message_id : String)
    (before : String → String → Bool) (s : ControllerState)
    → HasUniqueIds s
    → HasUniqueIds (ingest_message e from content message_id before s)
unfolding ingest_message
ingest_message-HasUniqueIds e from content message_id before s u =
    let existing = existing_conversation e.conversation_id from s.snap.conversations in
    let contact = find (λ c. c.peer_id == from) (contacts_of s.snap) in
    let c = conversation_for e from content message_id existing contact s in
    elim (Bool-cases (any (has_id message_id) (messages_in s.snap c.id))) [
      | inl known ↦ rw known u
      | inr new ↦ rw new (
          place_messages_unique (is_chronological e from content message_id before) c.id
            (incoming_message e from content message_id existing contact c.id) s
            (conversation_list e from content message_id existing c s.selected s.snap.conversations)
            new u)
    ]
