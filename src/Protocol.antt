-- ===== src/Protocol.antt =====
-- The data that peers exchange and store: packages/protocol/src/index.ts, and the wire envelope of
-- packages/network/src/protocols.ts. An ISO timestamp is kept as the milliseconds that it denotes;
-- the empty timestamp that a caller may leave in a call frame is `none`.
use skypier_chat.Prelude.{ℕ, String, Bool, Option, List}

abbrev pub Timestamp : Type 0
Timestamp = ℕ

pub data DeliveryState : Type 0 where
  sending local_only queued sent delivered read : DeliveryState

pub data Reachability : Type 0 where
  unknown direct relayed offline : Reachability

pub data WireEnvelopeKind : Type 0 where
  message receipt presence sync : WireEnvelopeKind

pub record WireEnvelope : Type 0 where
  pub kind : WireEnvelopeKind
  pub message_id : Option String
  pub conversation_id : String
  pub sender_peer_id : String
  pub sent_at : Timestamp
  pub payload : String

pub record Reaction : Type 0 where
  pub emoji : String
  pub authors : List String

pub data CipherAlgorithm : Type 0 where
  xchacha20poly1305 aes_gcm : CipherAlgorithm

-- `keyWrapAlgorithm` has one value, 'x25519-hkdf-sha256', and is left out.
pub record RecipientKeyWrap : Type 0 where
  pub recipient_peer_id : String
  pub recipient_device_id : String
  pub pre_key_id : String
  pub ephemeral_public_key : String
  pub salt : String
  pub nonce : String
  pub wrapped_key : String

pub record MessageCiphertext : Type 0 where
  pub algorithm : CipherAlgorithm
  pub ciphertext : String
  pub nonce : String
  pub recipient_device_ids : List String
  pub sender_key_id : Option String
  pub aad : Option String
  pub key_wraps : Option (List RecipientKeyWrap)

pub record EncryptedMessageEnvelope : Type 0 where
  pub v : ℕ
  pub algorithm : CipherAlgorithm
  pub ciphertext : String
  pub nonce : String
  pub sender_key_id : String
  pub key_wraps : List RecipientKeyWrap
  pub aad : Option String

-- `version` and `algorithm` have one value each, and are left out of the two key records.
pub record DevicePreKeyBundle : Type 0 where
  pub device_id : String
  pub peer_id : String
  pub identity_public_key : String
  pub pre_key_id : String
  pub pre_key_public_key : String
  pub created_at : Timestamp
  pub expires_at : Option Timestamp

pub record LocalDeviceCryptoState : Type 0 where
  pub device_id : String
  pub peer_id : String
  pub identity_private_key : String
  pub identity_public_key : String
  pub pre_key_id : String
  pub pre_key_private_key : String
  pub pre_key_public_key : String
  pub created_at : Timestamp

pub record ReplyReference : Type 0 where
  pub message_id : String
  pub excerpt : String
  pub author_display_name : String

pub record MediaAttachment : Type 0 where
  pub id : String
  pub mime_type : String
  pub data_uri : String
  pub storage_key : Option String
  pub width : Option ℕ
  pub height : Option ℕ
  pub size : ℕ

pub data ChatSystemEventType : Type 0 where
  call_attempted call_ended : ChatSystemEventType

pub data AudioCallEndReason : Type 0 where
  declined busy hangup missed error : AudioCallEndReason

pub data AudioCallSignalType : Type 0 where
  offer ringing accept reject hangup busy mute : AudioCallSignalType

-- `codec` has one value, 'opus'.
pub record AudioCallMediaProfile : Type 0 where
  pub sample_rate_hz : ℕ
  pub channels : ℕ
  pub ptime_ms : ℕ

pub record AudioCallSignal : Type 0 where
  pub type : AudioCallSignalType
  pub call_id : String
  pub conversation_id : String
  pub from_peer_id : String
  pub sent_at : Option Timestamp
  pub media_profile : Option AudioCallMediaProfile
  pub muted : Option Bool
  pub reason : Option AudioCallEndReason

pub data AudioCallChunkKind : Type 0 where
  chunk end : AudioCallChunkKind

pub record AudioCallChunk : Type 0 where
  pub kind : AudioCallChunkKind
  pub call_id : String
  pub conversation_id : String
  pub from_peer_id : String
  pub sent_at : Option Timestamp
  pub sequence : ℕ
  pub mime_type : String
  pub audio : Option String

pub data CallDirection : Type 0 where
  incoming outgoing : CallDirection

pub record ChatSystemEvent : Type 0 where
  pub type : ChatSystemEventType
  pub call_id : String
  pub direction : Option CallDirection
  pub ended_reason : Option AudioCallEndReason
  pub duration_ms : Option ℕ

pub record ChatMessage : Type 0 where
  pub id : String
  pub conversation_id : String
  pub sender_id : String
  pub sender_display_name : String
  pub sender_is_bot : Option Bool
  pub sender_device_id : String
  pub created_at : Timestamp
  pub preview_text : String
  pub ciphertext : MessageCiphertext
  pub delivery : DeliveryState
  pub reply_to : Option ReplyReference
  pub reactions : List Reaction
  pub attachments : Option (List MediaAttachment)
  pub system_event : Option ChatSystemEvent

pub data ConversationKind : Type 0 where
  direct group : ConversationKind

pub data Platform : Type 0 where
  web ios android desktop : Platform

pub data DeviceTrustLevel : Type 0 where
  software biometric hardware_backed : DeviceTrustLevel

pub record DeviceIdentity : Type 0 where
  pub id : String
  pub label : String
  pub peer_id : String
  pub platform : Platform
  pub trust_level : DeviceTrustLevel
  pub pre_key_bundle : Option DevicePreKeyBundle

pub record Participant : Type 0 where
  pub id : String
  pub display_name : String
  pub peer_id : String
  pub is_bot : Option Bool
  pub devices : List DeviceIdentity

-- `kind` is optional: states written by older versions lack it.
pub record Conversation : Type 0 where
  pub id : String
  pub title : String
  pub kind : Option ConversationKind
  pub group_topic_id : Option String
  pub group_description : Option String
  pub admin_peer_id : Option String
  pub participants : List Participant
  pub last_message_preview : String
  pub unread_count : ℕ
  pub muted : Option Bool
  pub pinned : Option Bool
  pub reachability : Reachability
  pub updated_at : Timestamp

-- `type` has one value, 'evm'.
pub record LinkedEthAddress : Type 0 where
  pub address : String
  pub chain_id : ℕ
  pub linked_at : Timestamp
  pub signature : String
  pub proof_message : String

pub data ThemePreference : Type 0 where
  light dark : ThemePreference

pub record AccountProfile : Type 0 where
  pub user_id : String
  pub display_name : String
  pub profile_avatar_url : Option String
  pub profile_bio : Option String
  pub share_ens_display_name : Option Bool
  pub prefer_ens_avatar : Option Bool
  pub ens_handle : Option String
  pub ens_handle_published_at : Option Timestamp
  pub ens_handle_published_peer_id : Option String
  pub local_peer_id : Option String
  pub identity_protobuf : Option String
  pub device_crypto_state : Option LocalDeviceCryptoState
  pub linked_eth_addresses : List LinkedEthAddress
  pub theme_preference : Option ThemePreference
  pub biometric_unlock_enabled : Option Bool
  pub biometric_credential_id : Option String

-- `contentType` has one value, 'chat-envelope'.
pub record RelayMailboxEnvelope : Type 0 where
  pub envelope_id : String
  pub message_id : String
  pub conversation_id : String
  pub sender_peer_id : String
  pub recipient_peer_id : String
  pub sent_at : Timestamp
  pub expires_at : Timestamp
  pub encrypted_envelope : EncryptedMessageEnvelope

pub record MailboxEnqueueResponse : Type 0 where
  pub accepted : Bool
  pub reason : Option String
  pub expires_at : Option Timestamp
  pub queue_depth : Option ℕ

pub record MailboxPullRequest : Type 0 where
  pub recipient_peer_id : String
  pub limit : Option ℕ
  pub after_cursor : Option String

pub record MailboxPullResponse : Type 0 where
  pub items : List RelayMailboxEnvelope
  pub next_cursor : Option String

pub record MailboxAckRequest : Type 0 where
  pub recipient_peer_id : String
  pub envelope_ids : List String

pub record MailboxAckResponse : Type 0 where
  pub acked : List String
  pub missing : List String
