-- ===== src/Controller/Inbound.antt =====
-- Messages that come in: the part of ingestIncomingEnvelope in apps/web/src/useChatController.ts that
-- follows the reading of a message's payload. A `Content` is what was read from the payload. `before`
-- stands for localeCompare, which depends on the browser's locale: whether the first text does not
-- come after.
pub mod Unique
pub mod Replayed
use Prim.Native.String.{◌++◌}
use skypier_chat.Prelude.{
  truthy, ◌+◌, String, ◌==◌, Bool, ◌||◌, ◌&&◌, Option, none, some, List, [], ◌∷◌, map, any, find,
  is_some, or_else, ltb, leb, if◌then◌else◌,
}
use skypier_chat.Prelude.Maps.{get, put}
use skypier_chat.Prelude.Text.{after_prefix, last_chars}
use skypier_chat.Protocol.{
  Conversation, ConversationKind, direct, group, Participant, Reachability, ChatMessage,
  MessageCiphertext, MediaAttachment, ReplyReference, WireEnvelope, delivered,
}
use skypier_chat.Storage.{PersistedChatState, Contact}
use skypier_chat.Controller.{message_ids_match, normalize_network_message_id}
use skypier_chat.Controller.Groups.{
  GroupContext, peer_name, create_synthetic_remote_participant, resolve_conversation,
}
use skypier_chat.Controller.Conversations.{
  ControllerState, contacts_of, has_peer, is_direct, self_participant, cap_conversation_messages,
}

pub record Content : Type 0 where
  pub preview_text : String
  pub ciphertext : MessageCiphertext
  pub reply_to : Option ReplyReference
  pub attachments : Option (List MediaAttachment)
  pub group_context : Option GroupContext

unfoldable pub infer_conversation_kind : String → ConversationKind
infer_conversation_kind id = if is_some (after_prefix id "group-") then group else direct

abbrev pub insert_message :
    (ChatMessage → ChatMessage → Bool) → ChatMessage → List ChatMessage → List ChatMessage
insert_message first m [] = m ∷ []
insert_message first m (n ∷ ns) =
    let rest = insert_message first m ns in if first m n then m ∷ n ∷ ns else n ∷ rest

-- A stable sort: `first` tells whether its first message may stand before the second.
abbrev pub sort_messages : (ChatMessage → ChatMessage → Bool) → List ChatMessage → List ChatMessage
sort_messages first [] = []
sort_messages first (m ∷ ms) = insert_message first m (sort_messages first ms)

-- [...ms, m]
abbrev pub push : List ChatMessage → ChatMessage → List ChatMessage
push [] m = m ∷ []
push (n ∷ ns) m = n ∷ push ns m

abbrev pub messages_in : PersistedChatState → String → List ChatMessage
messages_in s id = or_else (get s.messages_by_conversation id) []

abbrev pub place_messages :
    (ChatMessage → ChatMessage → Bool)
    → String
    → ChatMessage
    → PersistedChatState
    → List Conversation
    → PersistedChatState
place_messages first id m s cs = record s {
  conversations = cs;
  messages_by_conversation =
      put s.messages_by_conversation id
        (cap_conversation_messages (sort_messages first (push (messages_in s id) m)));
}

abbrev pub find_direct : ConversationKind → String → List Conversation → Option Conversation
find_direct direct peer cs = find (λ c. is_direct c.kind && has_peer peer c) cs
find_direct group peer cs = none

abbrev pub or_found : Option Conversation → Option Conversation → Option Conversation
or_found none o = o
or_found (some c) o = some c

-- The conversation with the identifier, or a direct one with the peer.
unfoldable pub existing_conversation : String → String → List Conversation → Option Conversation
existing_conversation id peer cs =
    or_found (find (λ c. c.id == id) cs) (find_direct (infer_conversation_kind id) peer cs)

abbrev contact_name : Option Contact → String → String
contact_name none peer = peer_name peer
contact_name (some c) peer = c.display_name

abbrev contact_is_bot : Option Contact → Option Bool
contact_is_bot none = none
contact_is_bot (some c) = c.is_bot

abbrev sender_in : Option Conversation → String → Option Participant
sender_in none peer = none
sender_in (some c) peer = find (λ p. p.peer_id == peer) c.participants

abbrev pub sender_is_bot : Option Participant → Option Contact → Option Bool
sender_is_bot none contact = contact_is_bot contact
sender_is_bot (some p) contact = elim p.is_bot [ none ↦ contact_is_bot contact | some b ↦ some b ]

abbrev sender_name : Option Conversation → Option Participant → Option Contact → String → String
sender_name none p contact peer = contact_name contact peer
sender_name (some c) none contact peer = c.title
sender_name (some c) (some p) contact peer = p.display_name

abbrev kind_title : ConversationKind → String → String → String
kind_title direct id name = name
kind_title group id name = "Group " ++ last_chars 6 id

abbrev kind_topic : ConversationKind → String → Option String
kind_topic direct id = none
kind_topic group id = some ("skypier.group." ++ id)

-- A message that has been read, as the variables of the handler: the stable identifier, with the
-- random one in it where the envelope has none.
module _ (e : WireEnvelope) (from : String) (content : Content) (message_id : String) where
  abbrev pub new_inbound_conversation : Option Contact → ControllerState → Conversation
  new_inbound_conversation contact s = record {
    id = e.conversation_id;
    title =
        kind_title (infer_conversation_kind e.conversation_id) e.conversation_id
          (contact_name contact from);
    kind = some (infer_conversation_kind e.conversation_id);
    group_topic_id = kind_topic (infer_conversation_kind e.conversation_id) e.conversation_id;
    group_description = none;
    admin_peer_id = none;
    participants =
        self_participant s.snap
        ∷ create_synthetic_remote_participant from (contact_name contact from)
            (contact_is_bot contact)
        ∷ [];
    last_message_preview = content.preview_text;
    unread_count = if s.selected == e.conversation_id then 0 else 1;
    muted = none;
    pinned = none;
    reachability = Reachability.direct;
    updated_at = e.sent_at;
  }

  abbrev pub incoming_message : Option Conversation → Option Contact → String → ChatMessage
  incoming_message existing contact id = record {
    id = message_id;
    conversation_id = id;
    sender_id = from;
    sender_display_name = sender_name existing (sender_in existing from) contact from;
    sender_is_bot = sender_is_bot (sender_in existing from) contact;
    sender_device_id = "device-" ++ from;
    created_at = e.sent_at;
    preview_text = content.preview_text;
    ciphertext = content.ciphertext;
    delivery = delivered;
    reply_to = content.reply_to;
    reactions = [];
    attachments = content.attachments;
    system_event = none;
  }

  abbrev pub touch_conversation : Conversation → String → Conversation → Conversation
  touch_conversation resolved selected c =
      if c.id == resolved.id
      then record resolved {
        last_message_preview = content.preview_text;
        updated_at = e.sent_at;
        unread_count = if selected == resolved.id then c.unread_count else c.unread_count + 1;
      }
      else c

  abbrev pub conversation_list :
      Option Conversation → Conversation → String → List Conversation → List Conversation
  conversation_list none resolved selected cs = resolved ∷ cs
  conversation_list (some c) resolved selected cs = map (touch_conversation resolved selected) cs

  abbrev pub conversation_for :
      Option Conversation → Option Contact → ControllerState → Conversation
  conversation_for none contact s =
      resolve_conversation content.group_context (new_inbound_conversation contact s)
  conversation_for (some c) contact s = resolve_conversation content.group_context c

  abbrev ingest_in :
      (ChatMessage → ChatMessage → Bool)
      → Option Conversation
      → Option Contact
      → Conversation
      → ControllerState
      → ControllerState
  ingest_in first existing contact c s =
      if any (λ m. message_ids_match m.id message_id) (messages_in s.snap c.id)
      then s
      else record s {
        snap =
            place_messages first c.id (incoming_message existing contact c.id) s.snap
              (conversation_list existing c s.selected s.snap.conversations);
      }

  abbrev pub is_chronological : (String → String → Bool) → ChatMessage → ChatMessage → Bool
  is_chronological before l r =
      ltb l.created_at r.created_at
      || (leb l.created_at r.created_at
          && before (normalize_network_message_id l.id) (normalize_network_message_id r.id))

  unfoldable pub ingest_message : (String → String → Bool) → ControllerState → ControllerState
  ingest_message before s =
      let existing = existing_conversation e.conversation_id from s.snap.conversations in
      let contact = find (λ c. c.peer_id == from) (contacts_of s.snap) in
      ingest_in (is_chronological before) existing contact (conversation_for existing contact s) s

-- The identifier of the message that an envelope brings: the envelope's, or a random one.
abbrev pub inbound_id : Option String → String → String
inbound_id none random = "net-" ++ random
inbound_id (some id) random = "net-" ++ id

unfoldable pub ingest_envelope :
    WireEnvelope
    → String
    → Content
    → String
    → (String → String → Bool)
    → ControllerState
    → ControllerState
ingest_envelope e from content random before s =
    ingest_message e from content (inbound_id (truthy e.message_id) random) before s
