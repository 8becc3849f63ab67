-- ===== src/Storage/Normal.antt =====
-- The form that a stored state is brought to when it is read: normalizePersistedState in
-- packages/storage/src/index.ts.
use skypier_chat.Prelude.{
  ◌≡◌, refl, ap, false, none, some, List, [], ◌∷◌, map, length, if◌then◌else◌, ltb, or_else, truthy,
  is_some,
}
use skypier_chat.Storage.Title.{normal_title, normal_title_idem}
use skypier_chat.Protocol.{AccountProfile, light, ConversationKind, direct, group, Conversation}
use skypier_chat.Storage.{
  PersistedChatState, RawAccount, RawConversation, RawState, raw_conversation, raw_state,
}

-- The account that is put where there is none.
abbrev pub default_account : RawAccount
default_account = record {
  user_id = some "user-1";
  display_name = some "You";
  profile_avatar_url = none;
  profile_bio = none;
  share_ens_display_name = none;
  prefer_ens_avatar = none;
  ens_handle = none;
  ens_handle_published_at = none;
  ens_handle_published_peer_id = none;
  local_peer_id = none;
  identity_protobuf = none;
  device_crypto_state = none;
  linked_eth_addresses = some [];
  theme_preference = none;
  biometric_unlock_enabled = none;
  biometric_credential_id = none;
  profile_ens_name = none;
}

unfoldable pub normalize_account : RawAccount → AccountProfile
normalize_account a = record {
  user_id = or_else a.user_id "user-1";
  display_name = or_else a.display_name "You";
  profile_avatar_url = a.profile_avatar_url;
  profile_bio = a.profile_bio;
  share_ens_display_name =
      some (or_else a.share_ens_display_name (is_some (truthy a.profile_ens_name)));
  prefer_ens_avatar = some (or_else a.prefer_ens_avatar false);
  ens_handle = a.ens_handle;
  ens_handle_published_at = a.ens_handle_published_at;
  ens_handle_published_peer_id = a.ens_handle_published_peer_id;
  local_peer_id = a.local_peer_id;
  identity_protobuf = a.identity_protobuf;
  device_crypto_state = a.device_crypto_state;
  linked_eth_addresses = or_else a.linked_eth_addresses [];
  theme_preference = some (or_else a.theme_preference light);
  biometric_unlock_enabled = some (or_else a.biometric_unlock_enabled false);
  biometric_credential_id = a.biometric_credential_id;
}

abbrev pub default_kind : Conversation → ConversationKind
default_kind c = if ltb 2 (length c.participants) then group else direct

unfoldable pub normalize_conversation : RawConversation → Conversation
normalize_conversation c =
    let kind = or_else c.stored.kind (default_kind c.stored) in
    record c.stored {
      kind = some kind;
      title = normal_title c.title kind (length c.stored.participants);
    }

-- normalizePersistedState
unfoldable pub normalize_persisted_state : RawState → PersistedChatState
normalize_persisted_state raw = record {
  account = normalize_account (or_else raw.account default_account);
  conversations = map normalize_conversation (or_else raw.conversations []);
  messages_by_conversation = or_else raw.messages_by_conversation [];
  contacts = some (or_else raw.contacts []);
}

normalize_conversation_idem :
    (c : RawConversation)
    → normalize_conversation (raw_conversation (normalize_conversation c))
      ≡ normalize_conversation c
unfolding normalize_conversation
normalize_conversation_idem c =
    let kind = or_else c.stored.kind (default_kind c.stored) in
    let n = length c.stored.participants in
    ap (λ t. record c.stored { kind = some kind; title = t }) (normal_title_idem c.title kind n)

map-normalize_conversation :
    (cs : List RawConversation)
    → map normalize_conversation (map raw_conversation (map normalize_conversation cs))
      ≡ map normalize_conversation cs
map-normalize_conversation [] = refl
map-normalize_conversation (c ∷ cs) =
    rw (normalize_conversation_idem c, map-normalize_conversation cs) refl

-- A state that is normalised, written whole and read back is normalised to itself. `load` relies on
-- it, which normalises what `decryptPayload` has normalised.
pub normalize_persisted_state_idem :
    (raw : RawState)
    → normalize_persisted_state (raw_state (normalize_persisted_state raw))
      ≡ normalize_persisted_state raw
unfolding normalize_persisted_state normalize_account
normalize_persisted_state_idem raw =
    rw (map-normalize_conversation (or_else raw.conversations [])) refl
