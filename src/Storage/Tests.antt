-- ===== src/Storage/Tests.antt =====
-- Runs of the storage's operations on small states.
use skypier_chat.Prelude.{
  ℕ, zero, suc, String, ◌≡◌, refl, true, false, Bool, Option, none, some, List, [], ◌∷◌, map,
}
use skypier_chat.Protocol.{
  ChatMessage, xchacha20poly1305, sending, delivered, Reaction, Participant, relayed,
}
use skypier_chat.Prelude.Maps.{get}
use skypier_chat.Storage.Attachments.{
  BlobDatabase, AttachmentStore, save_attachment_blob, load_attachment_blob,
}
use skypier_chat.Storage.Attachments.RoundTrip.{
  load_attachment_blob-save_attachment_blob, load_attachment_blob_stale,
}
use skypier_chat.Storage.{
  PersistedChatState, RawState, RawConversation, raw_state, create_initial_chat_state,
}
use skypier_chat.Storage.Reactions.{next_authors, toggle_reactions, toggle_message_reaction}
use skypier_chat.Storage.Reactions.View.{has_reacted, has_reacted-toggle_message_reaction}
use skypier_chat.Storage.Reactions.Tidy.{IsTidy, toggle_message_reaction-IsTidy}
use skypier_chat.Storage.Delivery.{update_message_delivery}
use skypier_chat.Storage.Delivery.View.{messages, messages-update_message_delivery}
use skypier_chat.Prelude.Text.{trim, is_space, decimal}
use skypier_chat.Storage.Title.{default_title}
use skypier_chat.Storage.Normal.{
  normalize_conversation, normalize_persisted_state, normalize_persisted_state_idem,
}
use skypier_chat.Storage.Vault.{
  Browser, Vault, Bytes, save_state, load_state, reload, get_vault_key, encrypt_payload,
  write_persisted_payload, resolve_storage_mode,
}
use skypier_chat.Storage.Vault.Open.{IsLawful, sealed_with}
use skypier_chat.Storage.Vault.Key.{IsConsistent, load_state-IsConsistent}
use skypier_chat.Storage.Vault.RoundTrip.{load_state-save_state, load_state-reload}
use skypier_chat.Storage.Vault.Fallback.{load_state_stale}

abbrev pub text_message : String → List Reaction → ChatMessage
text_message id reactions = record {
  id = id;
  conversation_id = "conv-ari";
  sender_id = "user-2";
  sender_display_name = "Ari";
  sender_is_bot = none;
  sender_device_id = "device-ari";
  created_at = 1000;
  preview_text = "hello";
  ciphertext = record {
    algorithm = xchacha20poly1305;
    ciphertext = "aGVsbG8=";
    nonce = "nonce-1";
    recipient_device_ids = "device-web" ∷ [];
    sender_key_id = none;
    aad = none;
    key_wraps = none;
  };
  delivery = sending;
  reply_to = none;
  reactions = reactions;
  attachments = none;
  system_event = none;
}

abbrev liked : ChatMessage
liked = text_message "m1" (
    record { emoji = "+1"; authors = "Ari" ∷ "You" ∷ [] }
    ∷ record { emoji = "ok"; authors = "You" ∷ [] }
    ∷ [])

liked-IsTidy : IsTidy liked.reactions
liked-IsTidy = ((refl, tt), (refl, (refl, tt)), (λ e. cc e), (tt, (refl, tt), (λ e. cc e), tt))

has_reacted-toggle_message_reaction_example :
    has_reacted (toggle_message_reaction liked "ok" "You").reactions "ok" "You" ≡ false
has_reacted-toggle_message_reaction_example =
    has_reacted-toggle_message_reaction liked "ok" "You" "ok" "You"

toggle_message_reaction-IsTidy_example : IsTidy (toggle_message_reaction liked "ok" "You").reactions
toggle_message_reaction-IsTidy_example =
    toggle_message_reaction-IsTidy liked "ok" "You" liked-IsTidy

-- The last author takes the emoji away.
removed :
    (toggle_message_reaction liked "ok" "You").reactions
    ≡ record { emoji = "+1"; authors = "Ari" ∷ "You" ∷ [] } ∷ []
unfolding toggle_message_reaction toggle_reactions next_authors
removed = refl

abbrev two_conversations : PersistedChatState
two_conversations = record {
  account = create_initial_chat_state.account;
  conversations = [];
  messages_by_conversation =
      ("conv-ari", text_message "m1" [] ∷ [])
      ∷ ("conv-noah", text_message "m2" [] ∷ text_message "m3" [] ∷ [])
      ∷ [];
  contacts = none;
}

messages-update_message_delivery_example :
    messages (update_message_delivery two_conversations "m3" delivered).messages_by_conversation
    ≡ text_message "m1" []
      ∷ text_message "m2" []
      ∷ record (text_message "m3" []) { delivery = delivered }
      ∷ []
messages-update_message_delivery_example =
    messages-update_message_delivery two_conversations "m3" delivered
      ((refl, (refl, tt)), ((refl, tt), (tt, tt)))

-- A conversation of an older version, without a kind and with a blank title.
abbrev old_conversation : RawConversation
old_conversation = record {
  title = some "  ";
  stored = record {
    id = "conv-1";
    title = "  ";
    kind = none;
    group_topic_id = none;
    group_description = none;
    admin_peer_id = none;
    participants = someone ∷ someone ∷ someone ∷ [];
    last_message_preview = "";
    unread_count = 0;
    muted = none;
    pinned = none;
    reachability = relayed;
    updated_at = 1000;
  };
}
  where
    someone : Participant
    someone = record { id = "u"; display_name = "U"; peer_id = "p"; is_bot = none; devices = [] }

abbrev old_state : RawState
old_state = record {
  account = none;
  conversations = some (old_conversation ∷ []);
  messages_by_conversation = none;
  contacts = none;
}

normal_title :
    map (λ c. c.title) (normalize_persisted_state old_state).conversations ≡ "Group (3)" ∷ []
unfolding normalize_persisted_state normalize_conversation default_title trim is_space decimal
normal_title = refl

normalize_persisted_state_idem_example :
    normalize_persisted_state (raw_state (normalize_persisted_state old_state))
    ≡ normalize_persisted_state old_state
normalize_persisted_state_idem_example = normalize_persisted_state_idem old_state

-- The texts of a browser whose encryption marks what it is given.
data Marked : Type 0 where
  json : PersistedChatState → Marked
  under : Bytes → Bytes → Marked → Marked

abbrev parse_json : Marked → Option RawState
parse_json (json s) = some (raw_state s)
parse_json (under key iv t) = none

abbrev open_mark : Marked → Option Marked
open_mark (json s) = none
open_mark (under key iv t) = some t

-- Its database works at all calls but those that `fails` names.
abbrev browser_with : (ℕ → Bool) → Browser Marked
browser_with works = record {
  has_indexed_db = true;
  has_local_storage = true;
  database_works = works;
  local_storage_accepts = λ n. true;
  random_bytes = λ n size. n ∷ size ∷ [];
  stringify = json;
  parse = parse_json;
  encrypt = under;
  decrypt = λ key iv. open_mark;
}

browser_with-IsLawful : (works : ℕ → Bool) → IsLawful (browser_with works)
browser_with-IsLawful works = record { json = λ s. refl; aes = λ key iv t. refl }

abbrev steady : Browser Marked
steady = browser_with (λ n. true)

abbrev empty_vault : Vault Marked
empty_vault = record {
  database = none;
  local_payload = none;
  local_key = none;
  memory_payload = none;
  cached_key = none;
  calls = 0;
}

load_state-IsConsistent_example : IsConsistent steady (load_state steady empty_vault).1
load_state-IsConsistent_example = load_state-IsConsistent steady empty_vault (λ h k e. cc e)

saved : (save_state steady two_conversations empty_vault).0 ≡ true
unfolding save_state encrypt_payload get_vault_key write_persisted_payload resolve_storage_mode
saved = refl

saved_state_loads :
    (load_state steady (save_state steady two_conversations empty_vault).1).0
    ≡ some (normalize_persisted_state (raw_state two_conversations))
saved_state_loads =
    load_state-save_state steady (browser_with-IsLawful (λ n. true)) (λ n. refl) two_conversations
      empty_vault saved

load_state-reload_example :
    (load_state steady (reload (save_state steady two_conversations empty_vault).1)).0
    ≡ some (normalize_persisted_state (raw_state two_conversations))
load_state-reload_example =
    load_state-reload steady (browser_with-IsLawful (λ n. true)) (λ n. refl) two_conversations
      empty_vault refl (λ h k e. cc e) saved

-- The database fails at the second call.
abbrev not_second : ℕ → Bool
not_second n = elim n [ zero ↦ true | suc m ↦ elim m [ zero ↦ false | suc k ↦ true ] ]

abbrev holding : Vault Marked
holding = record {
  database = some (sealed_with (browser_with not_second) (7 ∷ []) (8 ∷ []) two_conversations);
  local_payload = none;
  local_key = some (7 ∷ []);
  memory_payload = none;
  cached_key = some (7 ∷ []);
  calls = 0;
}

load_state_stale_example :
    ((save_state (browser_with not_second) create_initial_chat_state holding).0 ≡ true)
    × ((load_state
          (browser_with not_second)
          (save_state (browser_with not_second) create_initial_chat_state holding).1).0
        ≡ some (normalize_persisted_state (raw_state two_conversations)))
load_state_stale_example =
    load_state_stale (browser_with not_second) (browser_with-IsLawful not_second) two_conversations
      create_initial_chat_state (7 ∷ []) (8 ∷ []) holding refl refl refl refl refl refl refl

abbrev blobs_with : (ℕ → Bool) → BlobDatabase
blobs_with works = record { present = true; works = works }

abbrev no_blobs : AttachmentStore String
no_blobs = record { database = []; memory = []; calls = 0 }

saved_blob_loads :
    (load_attachment_blob
      (blobs_with (λ n. true))
      "a1"
      (save_attachment_blob (blobs_with (λ n. true)) "a1" "photo" no_blobs)).0
    ≡ some "photo"
saved_blob_loads =
    load_attachment_blob-save_attachment_blob (blobs_with (λ n. true)) "a1" "a1" "photo" no_blobs
      refl refl refl

abbrev not_first : ℕ → Bool
not_first n = elim n [ zero ↦ false | suc m ↦ true ]

blob_not_found :
    (load_attachment_blob
      (blobs_with not_first)
      "a1"
      (save_attachment_blob (blobs_with not_first) "a1" "photo" no_blobs)).0
    ≡ none
unfolding get
blob_not_found =
    load_attachment_blob_stale (blobs_with not_first) "a1" "photo" no_blobs refl refl refl refl
