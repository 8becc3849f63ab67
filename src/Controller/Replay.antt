-- ===== src/Controller/Replay.antt =====
-- Reactions that come in, and the messages that a peer sends in answer to a sync request: the rest
-- of ingestIncomingEnvelope in apps/web/src/useChatController.ts. A `Payload` is what an entry's
-- payload was read as; an entry's envelope holds its conversation and its time.
use Prim.Native.String.{◌++◌}
use skypier_chat.Prelude.{
  String, ◌==◌, Bool, true, false, ◌||◌, Option, none, some, List, [], ◌∷◌, any, find,
  if◌then◌else◌,
}
use skypier_chat.Prelude.Maps.{Dict, put}
use skypier_chat.Protocol.{
  Conversation, ChatMessage, WireEnvelope, message, DevicePreKeyBundle, Timestamp,
}
use skypier_chat.Storage.{PersistedChatState}
use skypier_chat.Controller.{normalize_network_message_id}
use skypier_chat.Controller.Reactions.{
  ChatReactionEvent, apply_reaction_event_to_conversation_messages,
}
use skypier_chat.Controller.Bundles.{apply_received_pre_key_bundle}
use skypier_chat.Controller.Conversations.{ControllerState, contacts_of, has_peer, with_snap}
use skypier_chat.Controller.Inbound.{
  Content, messages_in, place_messages, is_chronological, existing_conversation, incoming_message,
  conversation_list, conversation_for, or_found,
}

pub data Payload : Type 0 where
  reacts : ChatReactionEvent → Payload
  says : Content → Payload

pub record SyncEntry : Type 0 where
  pub message_id : String
  pub conversation_id : String
  pub sent_at : Timestamp
  pub payload : Payload
  pub sender_peer_id : String

unfoldable pub to_conversation_message_key : String → String → String
to_conversation_message_key conversation id = conversation ++ ":" ++ normalize_network_message_id id

abbrev reacted_conversation : String → String → PersistedChatState → Option Conversation
reacted_conversation id peer s =
    or_found (find (λ c. c.id == id) s.conversations) (find (has_peer peer) s.conversations)

-- Whether the event changes a message, and the state with its messages.
abbrev react_in :
    Option Conversation
    → ChatReactionEvent
    → String
    → PersistedChatState
    → Bool × PersistedChatState
react_in none event peer s = (false, s)
react_in (some c) event peer s =
    let (applied, ms) =
      apply_reaction_event_to_conversation_messages (messages_in s c.id)
        (record event { conv_id = c.id; actor_peer_id = peer }) in
    if applied
    then (true, record s { messages_by_conversation = put s.messages_by_conversation c.id ms })
    else (false, s)

unfoldable ingest_reaction :
    WireEnvelope → String → ChatReactionEvent → ControllerState → ControllerState
ingest_reaction e from event s =
    with_snap (react_in (reacted_conversation e.conversation_id from s.snap) event from s.snap).1 s

abbrev keys_of : Dict (List ChatMessage) → List String
keys_of [] = []
keys_of ((k, ms) ∷ m) = message_keys k ms (keys_of m)
  where
    message_keys : String → List ChatMessage → List String → List String
    message_keys k [] rest = rest
    message_keys k (m ∷ ms) rest = to_conversation_message_key k m.id ∷ message_keys k ms rest

abbrev entry_envelope : SyncEntry → WireEnvelope
entry_envelope entry = record {
  kind = message;
  message_id = some entry.message_id;
  conversation_id = entry.conversation_id;
  sender_peer_id = entry.sender_peer_id;
  sent_at = entry.sent_at;
  payload = "";
}

abbrev stable_id : SyncEntry → String
stable_id entry = "net-" ++ entry.message_id

abbrev replay_reaction : ChatReactionEvent → SyncEntry → ControllerState → Bool × ControllerState
replay_reaction event entry s =
    let (applied, snap) =
      react_in (reacted_conversation entry.conversation_id entry.sender_peer_id s.snap) event
        entry.sender_peer_id s.snap in
    (applied, with_snap snap s)

module _ (before : String → String → Bool) where
  abbrev replay_message : Content → SyncEntry → ControllerState → ControllerState
  replay_message content entry s =
      let e = entry_envelope entry in
      let from = entry.sender_peer_id in
      let existing = existing_conversation e.conversation_id from s.snap.conversations in
      let contact = find (λ c. c.peer_id == from) (contacts_of s.snap) in
      let c = conversation_for e from content (stable_id entry) existing contact s in
      record s {
        snap =
            place_messages (is_chronological e from content (stable_id entry) before) c.id
              (incoming_message e from content (stable_id entry) existing contact c.id) s.snap
              (conversation_list e from content (stable_id entry) existing c s.selected
                s.snap.conversations);
      }

  abbrev replay_payload : Payload → SyncEntry → ControllerState → Bool × ControllerState
  replay_payload (reacts event) entry s = replay_reaction event entry s
  replay_payload (says content) entry s = (true, replay_message content entry s)

  -- Whether any entry changed something, and the state behind the last.
  abbrev replay_entries : List String → List SyncEntry → ControllerState → Bool × ControllerState
  replay_entries known [] s = (false, s)
  replay_entries known (entry ∷ entries) s =
      let key = to_conversation_message_key entry.conversation_id (stable_id entry) in
      let seen = any (λ k. k == key) known in
      let (changed, t) = if seen then (false, s) else replay_payload entry.payload entry s in
      let (later, u) = replay_entries (if seen then known else key ∷ known) entries t in
      (changed || later, u)

  abbrev take_bundle : Option DevicePreKeyBundle → String → ControllerState → ControllerState
  take_bundle none from s = s
  take_bundle (some bundle) from s =
      if bundle.peer_id == from
      then with_snap (apply_received_pre_key_bundle from bundle s.snap) s
      else s

  abbrev replay_all : List SyncEntry → ControllerState → ControllerState → ControllerState
  replay_all [] bundled s = bundled
  replay_all (entry ∷ entries) bundled s =
      let (changed, t) =
        replay_entries (keys_of bundled.snap.messages_by_conversation) (entry ∷ entries) bundled in
      if changed then t else s

  -- A sync envelope of type 'state'.
  unfoldable pub ingest_sync :
      Option DevicePreKeyBundle → List SyncEntry → String → ControllerState → ControllerState
  ingest_sync bundle entries from s = replay_all entries (take_bundle bundle from s) s
