-- ===== src/Controller/Tests.antt =====
-- Runs of the controller's callbacks on small states.
use skypier_chat.Prelude.{
  String, ◌≡◌, refl, true, false, Bool, none, some, List, [], ◌∷◌, map, arith, ◌==◌, Bool-cases,
  inl, inr,
}
use skypier_chat.Prelude.Maps.{get, put, delete, distinct}
use skypier_chat.Prelude.Text.{trim, is_space}
use skypier_chat.Protocol.{
  ChatMessage, xchacha20poly1305, delivered, DevicePreKeyBundle, WireEnvelope, message,
}
use skypier_chat.Storage.{create_initial_chat_state}
use skypier_chat.Storage.Reactions.View.{has_reacted}
use skypier_chat.Controller.{message_ids_match, normalize_network_message_id}
use skypier_chat.Controller.Reactions.{
  remove, upsert_reaction_authors, has_reacted-upsert_reaction_authors,
}
use skypier_chat.Controller.Bundles.{
  apply_received_pre_key_bundle, apply_received_pre_key_bundle_idem,
}
use skypier_chat.Controller.Conversations.{
  ControllerState, Maker, create_conversation_with_peer, create_conversation_with_peers,
  cap_conversation_messages, resolve_local_peer_id, is_placeholder_local_peer_id,
}
use skypier_chat.Controller.Conversations.Again.{create_conversation_with_peer_again}
use skypier_chat.Controller.Inbound.{
  Content, messages_in, ingest_message, ingest_envelope, existing_conversation,
  infer_conversation_kind,
}
use skypier_chat.Controller.Inbound.Unique.{HasUniqueIds, ingest_message-HasUniqueIds}
use skypier_chat.Controller.Inbound.Replayed.{HasRoom, ingest_envelope_idem}
use skypier_chat.Controller.Replay.{SyncEntry, says, ingest_sync, to_conversation_message_key}

abbrev maker : Maker
maker = record { now = 1000; new_group_id = "group-7"; new_direct_id = λ peer. peer }

abbrev liked : ChatMessage
liked = record {
  id = "m1";
  conversation_id = "conv-ari";
  sender_id = "user-2";
  sender_display_name = "Ari";
  sender_is_bot = none;
  sender_device_id = "device-ari";
  created_at = 1000;
  preview_text = "hello";
  ciphertext = record {
    algorithm = xchacha20poly1305;
    ciphertext = "aGVsbG8=";
    nonce = "nonce-1";
    recipient_device_ids = "device-web" ∷ [];
    sender_key_id = none;
    aad = none;
    key_wraps = none;
  };
  delivery = delivered;
  reply_to = none;
  reactions = record { emoji = "+1"; authors = "ari" ∷ "bob" ∷ [] } ∷ [];
  attachments = none;
  system_event = none;
}

has_reacted-upsert_reaction_authors_example :
    has_reacted (upsert_reaction_authors liked "+1" "bob" remove).1.reactions "+1" "bob" ≡ false
has_reacted-upsert_reaction_authors_example =
    has_reacted-upsert_reaction_authors liked "+1" "bob" "+1" "bob" remove

other_author_stays :
    (upsert_reaction_authors liked "+1" "bob" remove).1.reactions
    ≡ record { emoji = "+1"; authors = "ari" ∷ [] } ∷ []
unfolding upsert_reaction_authors
other_author_stays = refl

abbrev empty_state : ControllerState
empty_state = record { snap = create_initial_chat_state; selected = "" }

abbrev chat_with_bob : ControllerState
chat_with_bob = (create_conversation_with_peer maker "bob" none empty_state).1

create_conversation_with_peer_again_example :
    create_conversation_with_peer maker "bob" (some "Bob") chat_with_bob
    ≡ create_conversation_with_peer maker "bob" none empty_state
create_conversation_with_peer_again_example =
    create_conversation_with_peer_again maker "bob" none (some "Bob") empty_state

abbrev bundle : DevicePreKeyBundle
bundle = record {
  device_id = "phone";
  peer_id = "bob";
  identity_public_key = "ik";
  pre_key_id = "pk-1";
  pre_key_public_key = "pk";
  created_at = 900;
  expires_at = none;
}

apply_received_pre_key_bundle_idem_example :
    let s = apply_received_pre_key_bundle "bob" bundle chat_with_bob.snap in
    apply_received_pre_key_bundle "bob" bundle s ≡ s
apply_received_pre_key_bundle_idem_example =
    apply_received_pre_key_bundle_idem "bob" bundle chat_with_bob.snap

-- What Ari sends under the identifier that the chat has on Ari's side.
abbrev hello_envelope : WireEnvelope
hello_envelope = record {
  kind = message;
  message_id = some "7";
  conversation_id = "conv-of-ari";
  sender_peer_id = "ari";
  sent_at = 2000;
  payload = "hello";
}

abbrev hello_content : Content
hello_content = record {
  preview_text = "hello";
  ciphertext = liked.ciphertext;
  reply_to = none;
  attachments = none;
  group_context = none;
}

abbrev in_order : String → String → Bool
in_order a b = true

abbrev chat_with_ari : ControllerState
chat_with_ari = (create_conversation_with_peer maker "ari" none empty_state).1

abbrev greeted : ControllerState
greeted = ingest_message hello_envelope "ari" hello_content "net-7" in_order chat_with_ari

abbrev shown : ControllerState → String → List String
shown s id = map (λ m. m.preview_text) (messages_in s.snap id)

chat_with_ari-HasRoom : HasRoom chat_with_ari
unfolding create_conversation_with_peer create_conversation_with_peers distinct trim is_space put
    get delete create_initial_chat_state
chat_with_ari-HasRoom k = ground arith

chat_with_ari-HasUniqueIds : HasUniqueIds chat_with_ari
unfolding create_conversation_with_peer create_conversation_with_peers distinct trim is_space put
    get delete create_initial_chat_state
chat_with_ari-HasUniqueIds k = elim (Bool-cases ("ari" == k)) [
  | inl own ↦ rw own tt
  | inr other ↦ rw other tt
]

-- The same envelope with two random texts, which it has no need of.
abbrev greeting_received : String → ControllerState → ControllerState
greeting_received random s = ingest_envelope hello_envelope "ari" hello_content random in_order s

ingest_envelope_idem_example :
    greeting_received "y" (greeting_received "x" chat_with_ari)
    ≡ greeting_received "x" chat_with_ari
ingest_envelope_idem_example =
    ingest_envelope_idem hello_envelope "ari" "7" hello_content "x" "y" in_order chat_with_ari refl
      refl chat_with_ari-HasRoom

ingest_message-HasUniqueIds_example : HasUniqueIds greeted
ingest_message-HasUniqueIds_example =
    ingest_message-HasUniqueIds hello_envelope "ari" hello_content "net-7" in_order chat_with_ari
      chat_with_ari-HasUniqueIds

-- The message is kept in the chat with Ari, whatever identifier that has.
greeting_shown : shown greeted "ari" ≡ "hello" ∷ []
unfolding create_conversation_with_peer create_conversation_with_peers distinct trim is_space put
    get delete create_initial_chat_state ingest_message existing_conversation
    infer_conversation_kind message_ids_match normalize_network_message_id cap_conversation_messages
    resolve_local_peer_id is_placeholder_local_peer_id
greeting_shown = refl

abbrev greeting_entry : SyncEntry
greeting_entry = record {
  message_id = "7";
  conversation_id = "conv-of-ari";
  sent_at = 2000;
  payload = says hello_content;
  sender_peer_id = "ari";
}

-- The same message in an answer to a sync request is kept a second time.
greeting_twice :
    shown (ingest_sync in_order none (greeting_entry ∷ []) "ari" greeted) "ari"
    ≡ "hello" ∷ "hello" ∷ []
unfolding create_conversation_with_peer create_conversation_with_peers distinct trim is_space put
    get delete create_initial_chat_state ingest_message existing_conversation
    infer_conversation_kind message_ids_match normalize_network_message_id cap_conversation_messages
    resolve_local_peer_id is_placeholder_local_peer_id ingest_sync to_conversation_message_key
greeting_twice = refl

-- An answer with a bundle whose messages are all known: the bundle is not kept.
bundle_lost :
    ingest_sync in_order
      (some (record bundle { peer_id = "ari" }))
      (record greeting_entry { conversation_id = "ari" } ∷ [])
      "ari"
      greeted
    ≡ greeted
unfolding create_conversation_with_peer create_conversation_with_peers distinct trim is_space put
    get delete create_initial_chat_state ingest_message existing_conversation
    infer_conversation_kind message_ids_match normalize_network_message_id cap_conversation_messages
    resolve_local_peer_id is_placeholder_local_peer_id ingest_sync to_conversation_message_key
    apply_received_pre_key_bundle
bundle_lost = refl
