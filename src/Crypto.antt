-- ===== src/Crypto.antt =====
-- The encryption of messages: packages/crypto/src/index.ts. The record `Platform` stands for the
-- x25519 of noble, WebCrypto, TextEncoder, btoa and atob (on the bytes whose binary text
-- bytesToBase64 and base64ToBytes go through), and the dates; its random bytes are those of the n-th
-- call, and an operation takes the number of calls so far.
pub mod Wraps
pub mod RoundTrip
pub mod Tests
use Prim.Native.String.{◌++◌}
use skypier_chat.Prelude.{
  ℕ, zero, suc, ◌+◌, String, Bool, true, false, ◌&&◌, Option, none, some, List, [], ◌∷◌, find,
  if◌then◌else◌, ◌==◌, or_else,
}
use skypier_chat.Protocol.{
  Timestamp, LocalDeviceCryptoState, DevicePreKeyBundle, RecipientKeyWrap, EncryptedMessageEnvelope,
  MessageCiphertext, CipherAlgorithm, aes_gcm, xchacha20poly1305,
}

pub record Platform (Bytes : Type 0) : Type 0 where
  pub btoa : Bytes → String
  pub atob : String → Option Bytes
  pub encode : String → Bytes
  pub decode : Bytes → String
  pub random_bytes : ℕ → ℕ → Bytes
  pub random_secret_key : ℕ → Bytes
  pub public_key : Bytes → Bytes
  -- none where `getSharedSecret` throws
  pub shared_secret : Bytes → Bytes → Option Bytes
  -- The key that HKDF derives of a secret, a salt and the info.
  pub derive : Bytes → Bytes → Bytes → Bytes
  -- AES-GCM under a key and an initialisation vector, with additional data if there are any.
  pub encrypt : Bytes → Bytes → Option Bytes → Bytes → Bytes
  pub decrypt : Bytes → Bytes → Option Bytes → Bytes → Option Bytes
  pub now : ℕ → Timestamp
  pub iso_text : Timestamp → String

-- How `decryptMessageEnvelope` ends: with the plain text, or with one of its errors; `rejected` is
-- an error of the platform.
pub data Decrypted : Type 0 where
  plaintext : String → Decrypted
  unsupported_version unsupported_algorithm no_key_wrap rejected : Decrypted

abbrev pub cek_length_bytes : ℕ
cek_length_bytes = 32

abbrev pub aes_gcm_nonce_bytes : ℕ
aes_gcm_nonce_bytes = 12

abbrev pub wrap_salt_bytes : ℕ
wrap_salt_bytes = 16

abbrev pub wrap_label : String → String → String → String → String
wrap_label peer device pre_key sender =
    "skypier:wrap:" ++ (peer ++ (":" ++ (device ++ (":" ++ (pre_key ++ (":" ++ sender))))))

abbrev pub is_aes_gcm : CipherAlgorithm → Bool
is_aes_gcm aes_gcm = true
is_aes_gcm xchacha20poly1305 = false

-- `===` on numbers, for the version
abbrev pub is_one : ℕ → Bool
is_one n = elim n [ zero ↦ false | suc m ↦ elim m [ zero ↦ true | suc k ↦ false ] ]

-- The key wrap that the device looks for.
abbrev pub is_wrap_for : LocalDeviceCryptoState → RecipientKeyWrap → Bool
is_wrap_for d w = w.recipient_device_id == d.device_id && w.pre_key_id == d.pre_key_id

unfoldable pub export_device_pre_key_bundle :
    LocalDeviceCryptoState → Option Timestamp → DevicePreKeyBundle
export_device_pre_key_bundle d expires_at = record {
  device_id = d.device_id;
  peer_id = d.peer_id;
  identity_public_key = d.identity_public_key;
  pre_key_id = d.pre_key_id;
  pre_key_public_key = d.pre_key_public_key;
  created_at = d.created_at;
  expires_at = expires_at;
}

unfoldable pub to_legacy_message_ciphertext :
    EncryptedMessageEnvelope → List String → MessageCiphertext
to_legacy_message_ciphertext e devices = record {
  algorithm = e.algorithm;
  ciphertext = e.ciphertext;
  nonce = e.nonce;
  recipient_device_ids = devices;
  sender_key_id = some e.sender_key_id;
  aad = e.aad;
  key_wraps = some e.key_wraps;
}

module _ {Bytes : Type 0} (platform : Platform Bytes) where
  -- generateDeviceCryptoState; two secret keys are drawn
  unfoldable pub generate_device_crypto_state :
      String → String → Option Timestamp → ℕ → LocalDeviceCryptoState × ℕ
  generate_device_crypto_state device peer created_at n =
      let created = or_else created_at (platform.now n) in
      let identity = platform.random_secret_key n in
      let pre_key = platform.random_secret_key (n + 1) in
      (
        record {
          device_id = device;
          peer_id = peer;
          identity_private_key = platform.btoa identity;
          identity_public_key = platform.btoa (platform.public_key identity);
          pre_key_id = "prekey-" ++ platform.iso_text created;
          pre_key_private_key = platform.btoa pre_key;
          pre_key_public_key = platform.btoa (platform.public_key pre_key);
          created_at = created;
        },
        n + 2,
      )

  -- The wrap itself, from the shared secret.
  abbrev pub wrap_with :
      Bytes → DevicePreKeyBundle → String → ℕ → Option Bytes → Option RecipientKeyWrap
  wrap_with content_key b sender n none = none
  wrap_with content_key b sender n (some secret) =
      let salt = platform.random_bytes (n + 1) wrap_salt_bytes in
      let nonce = platform.random_bytes (n + 2) aes_gcm_nonce_bytes in
      let key =
        platform.derive secret salt
          (platform.encode (wrap_label b.peer_id b.device_id b.pre_key_id sender)) in
      some (record {
        recipient_peer_id = b.peer_id;
        recipient_device_id = b.device_id;
        pre_key_id = b.pre_key_id;
        ephemeral_public_key = platform.btoa (platform.public_key (platform.random_secret_key n));
        salt = platform.btoa salt;
        nonce = platform.btoa nonce;
        wrapped_key =
            platform.btoa
              (platform.encrypt key nonce (some (platform.encode b.device_id)) content_key);
      })

  abbrev pub secret_of : Bytes → Option Bytes → Option Bytes
  secret_of own none = none
  secret_of own (some theirs) = platform.shared_secret own theirs

  -- wrapContentKeyForRecipient; it draws three times. none where it throws
  unfoldable pub wrap_content_key_for_recipient :
      Bytes → DevicePreKeyBundle → String → ℕ → Option RecipientKeyWrap
  wrap_content_key_for_recipient content_key b sender n =
      wrap_with content_key b sender n
        (secret_of (platform.random_secret_key n) (platform.atob b.pre_key_public_key))

  abbrev pub add_wrap :
      Option RecipientKeyWrap → Option (List RecipientKeyWrap) → Option (List RecipientKeyWrap)
  add_wrap none rest = none
  add_wrap (some w) none = none
  add_wrap (some w) (some ws) = some (w ∷ ws)

  -- The wraps for all recipients: `Promise.all` fails where one of them does.
  unfoldable pub wrap_all :
      Bytes → List DevicePreKeyBundle → String → ℕ → Option (List RecipientKeyWrap)
  wrap_all content_key [] sender n = some []
  wrap_all content_key (b ∷ bs) sender n =
      add_wrap (wrap_content_key_for_recipient content_key b sender n)
        (wrap_all content_key bs sender (n + 3))

  abbrev pub encode_aad : Option String → Option Bytes
  encode_aad none = none
  encode_aad (some aad) = some (platform.encode aad)

  abbrev pub envelope_with :
      String
      → String
      → Option String
      → ℕ
      → Option (List RecipientKeyWrap)
      → Option EncryptedMessageEnvelope
  envelope_with text sender aad n none = none
  envelope_with text sender aad n (some wraps) =
      let iv = platform.random_bytes n aes_gcm_nonce_bytes in
      let content_key = platform.random_bytes (n + 1) cek_length_bytes in
      some (record {
        v = 1;
        algorithm = aes_gcm;
        ciphertext =
            platform.btoa (platform.encrypt content_key iv (encode_aad aad) (platform.encode text));
        nonce = platform.btoa iv;
        sender_key_id = sender;
        key_wraps = wraps;
        aad = aad;
      })

  -- encryptMessageEnvelope; none where it throws
  unfoldable pub encrypt_message_envelope :
      String
      → String
      → List DevicePreKeyBundle
      → Option String
      → ℕ
      → Option EncryptedMessageEnvelope
  encrypt_message_envelope text sender bundles aad n =
      envelope_with text sender aad n
        (wrap_all (platform.random_bytes (n + 1) cek_length_bytes) bundles sender (n + 2))

  -- `crypto.subtle.decrypt` on base64 texts
  abbrev pub decrypt_bytes : Bytes → Option Bytes → Option Bytes → Option Bytes → Option Bytes
  decrypt_bytes key (some nonce) aad (some cipher) = platform.decrypt key nonce aad cipher
  decrypt_bytes key (some nonce) aad none = none
  decrypt_bytes key none aad cipher = none

  abbrev pub unwrap_with : RecipientKeyWrap → String → Option Bytes → Option Bytes → Option Bytes
  unwrap_with w sender none salt = none
  unwrap_with w sender (some secret) none = none
  unwrap_with w sender (some secret) (some salt) =
      decrypt_bytes
        (platform.derive secret salt (
          platform.encode
            (wrap_label w.recipient_peer_id w.recipient_device_id w.pre_key_id sender)))
        (platform.atob w.nonce) (some (platform.encode w.recipient_device_id))
        (platform.atob w.wrapped_key)

  -- sharedSecretFromKeys
  abbrev pub shared_secret_from : Option Bytes → Option Bytes → Option Bytes
  shared_secret_from none theirs = none
  shared_secret_from (some own) theirs = secret_of own theirs

  -- The content key of a wrap.
  unfoldable pub unwrap_content_key :
      LocalDeviceCryptoState → RecipientKeyWrap → String → Option Bytes
  unwrap_content_key d w sender =
      unwrap_with w sender
        (shared_secret_from (platform.atob d.pre_key_private_key)
          (platform.atob w.ephemeral_public_key))
        (platform.atob w.salt)

  abbrev pub decoded : Option Bytes → Decrypted
  decoded none = rejected
  decoded (some bytes) = plaintext (platform.decode bytes)

  abbrev pub open_with : EncryptedMessageEnvelope → Option Bytes → Decrypted
  open_with e none = rejected
  open_with e (some key) =
      decoded
        (decrypt_bytes key (platform.atob e.nonce) (encode_aad e.aad) (platform.atob e.ciphertext))

  abbrev pub open_wrap :
      EncryptedMessageEnvelope → LocalDeviceCryptoState → Option RecipientKeyWrap → Decrypted
  open_wrap e d none = no_key_wrap
  open_wrap e d (some w) = open_with e (unwrap_content_key d w e.sender_key_id)

  -- decryptMessageEnvelope
  unfoldable pub decrypt_message_envelope :
      EncryptedMessageEnvelope → LocalDeviceCryptoState → Decrypted
  decrypt_message_envelope e d =
      if is_one e.v
      then if is_aes_gcm e.algorithm
        then open_wrap e d (find (is_wrap_for d) e.key_wraps)
        else unsupported_algorithm
      else unsupported_version
