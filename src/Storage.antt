-- ===== src/Storage.antt =====
-- The stored chat state: packages/storage/src/index.ts, its types. A state that is read back may be
-- one that an older version wrote, so its fields may be missing: the `Raw` records.
pub mod Reactions
pub mod Delivery
pub mod Title
pub mod Normal
pub mod Vault
pub mod Attachments
pub mod Tests
use skypier_chat.Prelude.{String, Bool, Option, none, some, List, [], ◌∷◌, map}
use skypier_chat.Prelude.Maps.{Dict}
use skypier_chat.Protocol.{
  AccountProfile, LinkedEthAddress, ThemePreference, light, LocalDeviceCryptoState, ChatMessage,
  Conversation, Timestamp,
}

pub record Contact : Type 0 where
  pub id : String
  pub peer_id : String
  pub display_name : String
  pub is_bot : Option Bool
  pub avatar_url : Option String
  pub bio : Option String
  pub ens_name : Option String
  pub eth_address : Option String
  pub ens_name_verified : Option Bool
  pub added_at : Timestamp

pub record PersistedChatState : Type 0 where
  pub account : AccountProfile
  pub conversations : List Conversation
  pub messages_by_conversation : Dict (List ChatMessage)
  pub contacts : Option (List Contact)

-- An account as the storage may hold it; the last field is one that older versions wrote.
pub record RawAccount : Type 0 where
  pub user_id : Option String
  pub display_name : Option String
  pub profile_avatar_url : Option String
  pub profile_bio : Option String
  pub share_ens_display_name : Option Bool
  pub prefer_ens_avatar : Option Bool
  pub ens_handle : Option String
  pub ens_handle_published_at : Option Timestamp
  pub ens_handle_published_peer_id : Option String
  pub local_peer_id : Option String
  pub identity_protobuf : Option String
  pub device_crypto_state : Option LocalDeviceCryptoState
  pub linked_eth_addresses : Option (List LinkedEthAddress)
  pub theme_preference : Option ThemePreference
  pub biometric_unlock_enabled : Option Bool
  pub biometric_credential_id : Option String
  pub profile_ens_name : Option String

-- A stored conversation: its title, which may be missing, and the other fields.
pub record RawConversation : Type 0 where
  pub title : Option String
  pub stored : Conversation

pub record RawState : Type 0 where
  pub account : Option RawAccount
  pub conversations : Option (List RawConversation)
  pub messages_by_conversation : Option (Dict (List ChatMessage))
  pub contacts : Option (List Contact)

-- What `JSON.parse` gives back of a state that was written whole.
abbrev pub raw_account : AccountProfile → RawAccount
raw_account a = record {
  user_id = some a.user_id;
  display_name = some a.display_name;
  profile_avatar_url = a.profile_avatar_url;
  profile_bio = a.profile_bio;
  share_ens_display_name = a.share_ens_display_name;
  prefer_ens_avatar = a.prefer_ens_avatar;
  ens_handle = a.ens_handle;
  ens_handle_published_at = a.ens_handle_published_at;
  ens_handle_published_peer_id = a.ens_handle_published_peer_id;
  local_peer_id = a.local_peer_id;
  identity_protobuf = a.identity_protobuf;
  device_crypto_state = a.device_crypto_state;
  linked_eth_addresses = some a.linked_eth_addresses;
  theme_preference = a.theme_preference;
  biometric_unlock_enabled = a.biometric_unlock_enabled;
  biometric_credential_id = a.biometric_credential_id;
  profile_ens_name = none;
}

abbrev pub raw_conversation : Conversation → RawConversation
raw_conversation c = record { title = some c.title; stored = c }

abbrev pub raw_state : PersistedChatState → RawState
raw_state s = record {
  account = some (raw_account s.account);
  conversations = some (map raw_conversation s.conversations);
  messages_by_conversation = some s.messages_by_conversation;
  contacts = s.contacts;
}

-- createInitialChatState
unfoldable pub create_initial_chat_state : PersistedChatState
create_initial_chat_state = record {
  account = record {
    user_id = "user-1";
    display_name = "";
    profile_avatar_url = none;
    profile_bio = none;
    share_ens_display_name = none;
    prefer_ens_avatar = none;
    ens_handle = none;
    ens_handle_published_at = none;
    ens_handle_published_peer_id = none;
    local_peer_id = none;
    identity_protobuf = none;
    device_crypto_state = none;
    linked_eth_addresses = [];
    theme_preference = some light;
    biometric_unlock_enabled = some Bool.false;
    biometric_credential_id = none;
  };
  conversations = [];
  messages_by_conversation = [];
  contacts = some [];
}
