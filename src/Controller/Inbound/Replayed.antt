-- ===== src/Controller/Inbound/Replayed.antt =====
-- A message that comes in twice.
use Prim.Native.String.{◌++◌}
use skypier_chat.Prelude.{
  truthy, suc, ◌<◌, ◌≤◌, String, ◌==◌, eq_refl, eq_iff, ◌≡◌, refl, sym, ap, ◌∙◌, Bool, true, false,
  ◌&&◌, Option, none, some, List, [], ◌∷◌, any, find, map, length, or_else, if◌then◌else◌, arith,
  Bool-cases, Option-cases, inl, inr, ◌⊎◌,
}
use mathlib.Core.Path.{subst}
use skypier_chat.Prelude.Maps.{get-put}
use skypier_chat.Protocol.{Conversation, ConversationKind, direct, group, ChatMessage, WireEnvelope}
use skypier_chat.Storage.{PersistedChatState, Contact}
use skypier_chat.Controller.{message_ids_match}
use skypier_chat.Controller.Conversations.{
  ControllerState, cap_conversation_messages, contacts_of, max_messages_per_conversation, has_peer,
  is_direct,
}
use skypier_chat.Controller.Inbound.{
  Content, insert_message, sort_messages, push, messages_in, place_messages, ingest_message,
  ingest_envelope, is_chronological, existing_conversation, incoming_message, conversation_list,
  touch_conversation, new_inbound_conversation, infer_conversation_kind, find_direct, or_found,
}
use skypier_chat.Controller.Inbound.Unique.{has_id, any-push, any-sort_messages}

abbrev pub HasRoom : ControllerState → Type 0
HasRoom s = (k : String) → length (messages_in s.snap k) < max_messages_per_conversation

length-insert_message :
    (first : ChatMessage → ChatMessage → Bool) (m : ChatMessage) (ms : List ChatMessage)
    → length (insert_message first m ms) ≡ suc (length ms)
length-insert_message first m [] = refl
length-insert_message first m (n ∷ ns) = ground (arith, length-insert_message first m ns)

length-sort_messages :
    (first : ChatMessage → ChatMessage → Bool) (ms : List ChatMessage)
    → length (sort_messages first ms) ≡ length ms
length-sort_messages first [] = refl
length-sort_messages first (m ∷ ms) =
    length-insert_message first m (sort_messages first ms)
    ∙ ap (λ n. suc n) (length-sort_messages first ms)

length-push : (ms : List ChatMessage) (m : ChatMessage) → length (push ms m) ≡ suc (length ms)
length-push [] m = refl
length-push (n ∷ ns) m = ap (λ k. suc k) (length-push ns m)

cap-small :
    (ms : List ChatMessage)
    → length ms ≤ max_messages_per_conversation
    → cap_conversation_messages ms ≡ ms
unfolding cap_conversation_messages
cap-small ms h = ground (arith, h)

-- With room in its conversation a placed message is found there.
any-place_messages :
    (first : ChatMessage → ChatMessage → Bool) (id : String) (m : ChatMessage)
    (s : PersistedChatState) (cs : List Conversation) (p : ChatMessage → Bool)
    → length (messages_in s id) < max_messages_per_conversation
    → p m ≡ true
    → any p (messages_in (place_messages first id m s cs) id) ≡ true
any-place_messages first id m s cs p room h =
    let placed = sort_messages first (push (messages_in s id) m) in
    let small : length placed ≤ max_messages_per_conversation =
      (ground (
        arith,
        room,
        length-sort_messages first (push (messages_in s id) m),
        length-push (messages_in s id) m,
      )) in
    rw
      (
        get-put s.messages_by_conversation id id (cap_conversation_messages placed),
        eq_refl id,
        cap-small placed small,
        any-sort_messages first p (push (messages_in s id) m),
        any-push p (messages_in s id) m,
      )
      (ground (arith, h))

find-head :
    (b : Bool) (d c : Conversation) (rest : Option Conversation)
    → (if b then some d else rest) ≡ some c
    → (b ≡ true × d ≡ c) ⊎ (b ≡ false × rest ≡ some c)
find-head true d c rest e = inl (refl, ap (λ o. or_else o d) e)
find-head false d c rest e = inr (refl, e)

or_found-cases :
    (o q : Option Conversation) (c : Conversation)
    → or_found o q ≡ some c
    → (o ≡ some c) ⊎ (o ≡ none × q ≡ some c)
or_found-cases none q c e = inr (refl, e)
or_found-cases (some d) q c e = inl e

find-holds :
    (p : Conversation → Bool) (cs : List Conversation) (c : Conversation)
    → find p cs ≡ some c
    → p c ≡ true
find-holds p [] c e = absurd (ground (arith, e))
find-holds p (d ∷ ds) c e = elim (find-head (p d) d c (find p ds) e) [
  | inl (here, same) ↦ subst (λ x. p x ≡ true) same here
  | inr (later, found) ↦ find-holds p ds c found
]

module _ (e : WireEnvelope) (from : String) (content : Content) (message_id : String)
    (c : Conversation) (selected : String) where
  abbrev touch : Conversation → Conversation
  touch d = touch_conversation e from content message_id c selected d

  touch-id : (d : Conversation) → (touch d).id ≡ d.id
  touch-id d = ground (arith, eq_iff d.id c.id)

  find-map-touch :
      (p : Conversation → Bool) (ds : List Conversation)
      → ((d : Conversation) → (d.id == c.id) ≡ true → p (touch d) ≡ true)
      → find p ds ≡ some c
      → (d : Conversation) × (find p (map touch ds) ≡ some d × d.id ≡ c.id)
  find-map-touch p [] h f = absurd (ground (arith, f))
  find-map-touch p (d ∷ ds) h f = elim (Bool-cases (d.id == c.id)) [
    | inl same ↦ (touch d, (rw (h d same) refl, touch-id d ∙ (eq_iff d.id c.id).0 same))
    | inr other ↦ elim (find-head (p d) d c (find p ds) f) [
      | inl (here, same) ↦
          absurd (ground (arith, other, (eq_iff d.id c.id).1 (ap (λ x. x.id) same)))
      | inr (later, found) ↦ simp (other, later) (find-map-touch p ds h found)
    ]
  ]

  find-map-touch-none :
      (id : String) (ds : List Conversation)
      → find (λ d. d.id == id) ds ≡ none
      → find (λ d. d.id == id) (map touch ds) ≡ none
  find-map-touch-none id [] f = refl
  find-map-touch-none id (d ∷ ds) f = rw (touch-id d) (ground (arith, f, find-map-touch-none id ds))

  find_direct-map-touch :
      (kind : ConversationKind) (ds : List Conversation)
      → find_direct kind from ds ≡ some c
      → (d : Conversation) × (find_direct kind from (map touch ds) ≡ some d × d.id ≡ c.id)
  find_direct-map-touch group ds f = absurd (ground (arith, f))
  find_direct-map-touch direct ds f =
      let p : Conversation → Bool = (λ d. is_direct d.kind && has_peer from d) in
      find-map-touch p ds (λ d same. rw same (find-holds p ds c f)) f

  -- The conversation of a message is found again by the next one like it.
  existing_conversation_again :
      (ds : List Conversation)
      → existing_conversation e.conversation_id from ds ≡ some c
      → (d : Conversation) × (existing_conversation e.conversation_id from (map touch ds) ≡ some d
          × d.id ≡ c.id)
  unfolding existing_conversation
  existing_conversation_again ds f =
      let p : Conversation → Bool = (λ d. d.id == e.conversation_id) in
      elim (or_found-cases (find p ds)
        (find_direct (infer_conversation_kind e.conversation_id) from ds) c f) [
          | inl found ↦
              let holds = find-holds p ds c found in
              let (d, (g, same_id)) =
                find-map-touch p ds (λ d same. rw (touch-id d, (eq_iff d.id c.id).0 same) holds)
                  found in
              (d, (rw g refl, same_id))
          | inr (new, found) ↦
              let (d, (g, same_id)) =
                find_direct-map-touch (infer_conversation_kind e.conversation_id) ds found in
              (d, (rw (find-map-touch-none e.conversation_id ds new, g) refl, same_id))
        ]

message_ids_match_refl : (id : String) → message_ids_match id id ≡ true
unfolding message_ids_match
message_ids_match_refl id = ground (arith, eq_refl id)

module _ (e : WireEnvelope) (from : String) (content : Content) (message_id : String)
    (before : String → String → Bool) where
  abbrev ingest : ControllerState → ControllerState
  ingest s = ingest_message e from content message_id before s

  abbrev is_known : ControllerState → String → Bool
  is_known s id = any (has_id message_id) (messages_in s.snap id)

  -- In a conversation that has it the message changes nothing.
  ingest_known :
      (s : ControllerState) (c : Conversation)
      → content.group_context ≡ none
      → existing_conversation e.conversation_id from s.snap.conversations ≡ some c
      → is_known s c.id ≡ true
      → ingest s ≡ s
  unfolding ingest_message
  ingest_known s c plain there known = rw (there, plain, known) refl

  abbrev contact_in : ControllerState → Option Contact
  contact_in s = find (λ c. c.peer_id == from) (contacts_of s.snap)

  -- The state with the message in the conversation `c`.
  abbrev placed : Option Conversation → Conversation → ControllerState → ControllerState
  placed existing c s = record s {
    snap =
        place_messages (is_chronological e from content message_id before) c.id
          (incoming_message e from content message_id existing (contact_in s) c.id) s.snap
          (conversation_list e from content message_id existing c s.selected s.snap.conversations);
  }

  placed_again :
      (existing : Option Conversation) (c : Conversation) (s : ControllerState)
      → content.group_context ≡ none
      → HasRoom s
      → (d : Conversation) × (existing_conversation e.conversation_id from
              (placed existing c s).snap.conversations
            ≡ some d
          × d.id ≡ c.id)
      → ingest (placed existing c s) ≡ placed existing c s
  placed_again existing c s plain room (d, (there, same)) =
      ingest_known (placed existing c s) d plain there (
        rw same (
          any-place_messages (is_chronological e from content message_id before) c.id
            (incoming_message e from content message_id existing (contact_in s) c.id) s.snap
            (conversation_list e from content message_id existing c s.selected s.snap.conversations)
            (has_id message_id) (room c.id) (message_ids_match_refl message_id)))

  ingest_there :
      (s : ControllerState) (c : Conversation)
      → content.group_context ≡ none
      → existing_conversation e.conversation_id from s.snap.conversations ≡ some c
      → is_known s c.id ≡ false
      → ingest s ≡ placed (some c) c s
  unfolding ingest_message
  ingest_there s c plain there fresh = rw (there, plain, fresh) refl

  -- Without a conversation the message goes to a new one, unless messages have been left without it.
  ingest_new :
      (s : ControllerState)
      → content.group_context ≡ none
      → existing_conversation e.conversation_id from s.snap.conversations ≡ none
      → let c = new_inbound_conversation e from content message_id (contact_in s) s in
        ingest s ≡ (if is_known s c.id then s else placed none c s)
  unfolding ingest_message
  ingest_new s plain there = rw (there, plain) refl

  new_again :
      (c : Conversation) (ds : List Conversation)
      → c.id ≡ e.conversation_id
      → existing_conversation e.conversation_id from (c ∷ ds) ≡ some c
  unfolding existing_conversation
  new_again c ds same = rw (same, eq_refl e.conversation_id) refl

  ingest_message_idem :
      (s : ControllerState)
      → content.group_context ≡ none
      → HasRoom s
      → let t = ingest_message e from content message_id before s in
        ingest_message e from content message_id before t ≡ t
  ingest_message_idem s plain room =
      elim (Option-cases (existing_conversation e.conversation_id from s.snap.conversations)) [
        | inl new ↦
            let c = new_inbound_conversation e from content message_id (contact_in s) s in
            let first = ingest_new s plain new in
            elim (Bool-cases (is_known s c.id)) [
              | inl known ↦ let same : ingest s ≡ s = (first ∙ rw known refl) in ap ingest same
              | inr fresh ↦
                  let made : ingest s ≡ placed none c s = (first ∙ rw fresh refl) in
                  subst (λ t. ingest t ≡ t) (sym made)
                    (placed_again none c s plain room
                      (c, (new_again c s.snap.conversations refl, refl)))
            ]
        | inr (c, there) ↦ elim (Bool-cases (is_known s c.id)) [
          | inl known ↦ ap ingest (ingest_known s c plain there known)
          | inr fresh ↦
              subst (λ t. ingest t ≡ t) (sym (ingest_there s c plain there fresh))
                (placed_again (some c) c s plain room (
                  existing_conversation_again e from content message_id c s.selected
                    s.snap.conversations there))
        ]
      ]

-- An envelope with an identifier whose message has no group context comes in a second time, as
-- retries and reconnections bring it. Where every conversation has room for one more message at the
-- beginning, it changes nothing the second time: its conversation, which the first one may have
-- made, is found again, and the message in it.
pub ingest_envelope_idem :
    (e : WireEnvelope) (from id : String) (content : Content) (random again : String)
    (before : String → String → Bool) (s : ControllerState)
    → truthy e.message_id ≡ some id
    → content.group_context ≡ none
    → HasRoom s
    → let t = ingest_envelope e from content random before s in
      ingest_envelope e from content again before t ≡ t
unfolding ingest_envelope
ingest_envelope_idem e from id content random again before s named plain room =
    rw named (ingest_message_idem e from content ("net-" ++ id) before s plain room)
