-- ===== src/Crypto/RoundTrip.antt =====
-- Decrypting an envelope on one of the devices that it was encrypted for, and on another.
use mathlib.Core.Path.{subst}
use skypier_chat.Prelude.{
  some_injective, ℕ, ◌+◌, String, ◌≡◌, refl, sym, ap, ◌∙◌, true, false, Option, none, some, List,
  ◌∷◌, ◌++◌, find, All, eq_refl,
}
use skypier_chat.Prelude.Text.{without_mark}
use skypier_chat.Protocol.{
  LocalDeviceCryptoState, DevicePreKeyBundle, RecipientKeyWrap, EncryptedMessageEnvelope,
}
use skypier_chat.Crypto.{
  Platform, plaintext, no_key_wrap, is_wrap_for, wrap_with, secret_of,
  wrap_content_key_for_recipient, envelope_with, encrypt_message_envelope, decrypt_bytes,
  unwrap_with, shared_secret_from, unwrap_content_key, decoded, decrypt_message_envelope,
  cek_length_bytes, wrap_salt_bytes, generate_device_crypto_state, export_device_pre_key_bundle,
}
use skypier_chat.Crypto.Wraps.{IsLawful, is_bundle_for, find-wrap_all, find-wrap_all_missing}

module _ {Bytes : Type 0} (platform : Platform Bytes) (laws : IsLawful platform) where
  -- The device's pre-key is that of a secret key, and the bundle publishes it.
  abbrev pub IsPublished : LocalDeviceCryptoState → DevicePreKeyBundle → Bytes → Type 0
  IsPublished d b secret =
      (d.pre_key_private_key ≡ platform.btoa secret)
      × (b.pre_key_public_key ≡ platform.btoa (platform.public_key secret))

  decrypt_bytes-sealed :
      (key nonce : Bytes) (aad : Option Bytes) (m : Bytes)
      → decrypt_bytes platform key
          (platform.atob (platform.btoa nonce))
          aad
          (platform.atob (platform.btoa (platform.encrypt key nonce aad m)))
        ≡ some m
  decrypt_bytes-sealed key nonce aad m =
      rw (laws.base64 nonce, laws.base64 (platform.encrypt key nonce aad m))
        (laws.aes key nonce aad m)

  unwrap_with-wrap_with :
      (key : Bytes) (b : DevicePreKeyBundle) (sender : String) (n : ℕ) (o : Option Bytes)
      (w : RecipientKeyWrap)
      → wrap_with platform key b sender n o ≡ some w
      → unwrap_with platform w sender o (platform.atob w.salt) ≡ some key
  unwrap_with-wrap_with key b sender n none w e = cc e
  unwrap_with-wrap_with key b sender n (some secret) w e =
      subst (λ x. unwrap_with platform x sender (some secret) (platform.atob x.salt) ≡ some key)
        (some_injective e)
        (rw (laws.base64 (platform.random_bytes (n + 1) wrap_salt_bytes))
          (decrypt_bytes-sealed _ _ _ key))

  ephemeral_public_key-wrap_with :
      (key : Bytes) (b : DevicePreKeyBundle) (sender : String) (n : ℕ) (o : Option Bytes)
      (w : RecipientKeyWrap)
      → wrap_with platform key b sender n o ≡ some w
      → w.ephemeral_public_key ≡ platform.btoa (platform.public_key (platform.random_secret_key n))
  ephemeral_public_key-wrap_with key b sender n none w e = cc e
  ephemeral_public_key-wrap_with key b sender n (some secret) w e =
      ap (λ x. x.ephemeral_public_key) (sym (some_injective e))

  -- Both sides come to the same secret.
  shared_secret_from-wrap :
      (d : LocalDeviceCryptoState) (b : DevicePreKeyBundle) (secret : Bytes) (n : ℕ)
      → IsPublished d b secret
      → shared_secret_from platform
          (platform.atob d.pre_key_private_key)
          (platform.atob (platform.btoa (platform.public_key (platform.random_secret_key n))))
        ≡ secret_of platform (platform.random_secret_key n) (platform.atob b.pre_key_public_key)
  shared_secret_from-wrap d b secret n p =
      let own = platform.random_secret_key n in
      ap
        (λ x.
          shared_secret_from platform x (platform.atob (platform.btoa (platform.public_key own))))
        (ap platform.atob p.0 ∙ laws.base64 secret)
      ∙ ap (secret_of platform secret) (laws.base64 (platform.public_key own))
      ∙ laws.agreement secret own
      ∙ sym (
          ap (secret_of platform own)
            (ap platform.atob p.1 ∙ laws.base64 (platform.public_key secret)))

  unwrap_content_key-wrap :
      (d : LocalDeviceCryptoState) (key : Bytes) (b : DevicePreKeyBundle) (sender : String) (n : ℕ)
      (secret : Bytes) (w : RecipientKeyWrap)
      → IsPublished d b secret
      → wrap_content_key_for_recipient platform key b sender n ≡ some w
      → unwrap_content_key platform d w sender ≡ some key
  unfolding wrap_content_key_for_recipient unwrap_content_key
  unwrap_content_key-wrap d key b sender n secret w p e =
      ap
        (λ x.
          unwrap_with platform w sender
            (shared_secret_from platform (platform.atob d.pre_key_private_key) (platform.atob x))
            (platform.atob w.salt))
        (ephemeral_public_key-wrap_with key b sender n _ w e)
      ∙ ap (λ o. unwrap_with platform w sender o (platform.atob w.salt))
          (shared_secret_from-wrap d b secret n p)
      ∙ unwrap_with-wrap_with key b sender n _ w e

  -- What `decryptMessageEnvelope` makes of an envelope with the given wraps.
  decrypt_message_envelope-envelope_with :
      (text sender : String) (aad : Option String) (n : ℕ) (o : Option (List RecipientKeyWrap))
      (d : LocalDeviceCryptoState) (e : EncryptedMessageEnvelope)
      → envelope_with platform text sender aad n o ≡ some e
      → (ws : List RecipientKeyWrap) × (o ≡ some ws)
        × ((w : RecipientKeyWrap)
            → find (is_wrap_for d) ws ≡ some w
            → unwrap_content_key platform d w sender
              ≡ some (platform.random_bytes (n + 1) cek_length_bytes)
            → decrypt_message_envelope platform e d ≡ plaintext (without_mark text))
        × (find (is_wrap_for d) ws ≡ none → decrypt_message_envelope platform e d ≡ no_key_wrap)
  unfolding decrypt_message_envelope
  decrypt_message_envelope-envelope_with text sender aad n none d e h = cc h
  decrypt_message_envelope-envelope_with text sender aad n (some ws) d e h = (
    ws,
    refl,
    λ w found key.
        subst (λ x. decrypt_message_envelope platform x d ≡ plaintext (without_mark text))
          (some_injective h)
          (rw found (
            rw key (
              ap (decoded platform) (decrypt_bytes-sealed _ _ _ (platform.encode text))
              ∙ ap plaintext (laws.utf8 text)))),
    λ missing.
        subst (λ x. decrypt_message_envelope platform x d ≡ no_key_wrap) (some_injective h)
          (rw missing refl),
  )

  -- Over a lawful platform, a device reads the text that was encrypted for its published bundle
  -- among others, but for a byte order mark at its beginning, which is left out, with any sender's key id and any additional data, where no bundle before it is
  -- for the same device and pre-key and the encryption succeeds.
  pub decrypt_message_envelope-encrypt :
      (text sender : String) (before : List DevicePreKeyBundle) (b : DevicePreKeyBundle)
      (after : List DevicePreKeyBundle) (aad : Option String) (n : ℕ) (d : LocalDeviceCryptoState)
      (secret : Bytes) (e : EncryptedMessageEnvelope)
      → IsPublished d b secret
      → is_bundle_for d b ≡ true
      → All (λ x. is_bundle_for d x ≡ false) before
      → encrypt_message_envelope platform text sender (before ++ b ∷ after) aad n ≡ some e
      → decrypt_message_envelope platform e d ≡ plaintext (without_mark text)
  unfolding encrypt_message_envelope
  decrypt_message_envelope-encrypt text sender before b after aad n d secret e p own others h =
      let (ws, made, opens, _) = decrypt_message_envelope-envelope_with text sender aad n _ d e h in
      let key = platform.random_bytes (n + 1) cek_length_bytes in
      let (m, w, found, from) =
        find-wrap_all platform d key before b after sender (n + 2) ws others own made in
      opens w found (unwrap_content_key-wrap d key b sender m secret w p from)

  -- Over a lawful platform, a device with none of its bundles among the recipients of an envelope
  -- finds no key wrap in it.
  pub decrypt_message_envelope-no_key_wrap :
      (text sender : String) (bundles : List DevicePreKeyBundle) (aad : Option String) (n : ℕ)
      (d : LocalDeviceCryptoState) (e : EncryptedMessageEnvelope)
      → All (λ x. is_bundle_for d x ≡ false) bundles
      → encrypt_message_envelope platform text sender bundles aad n ≡ some e
      → decrypt_message_envelope platform e d ≡ no_key_wrap
  unfolding encrypt_message_envelope
  decrypt_message_envelope-no_key_wrap text sender bundles aad n d e others h =
      let (ws, made, _, closed) =
        decrypt_message_envelope-envelope_with text sender aad n _ d e h in
      closed (
        find-wrap_all_missing platform d (platform.random_bytes (n + 1) cek_length_bytes) bundles
          sender (n + 2) ws others made)

  -- Over a lawful platform, a device that was generated reads what is encrypted for the bundle
  -- that it exports, whatever other recipients there are, if no bundle before its own is for the
  -- same device and pre-key and the encryption succeeds.
  pub decrypt_message_envelope-generate_device_crypto_state :
      (device peer : String) (created_at expires_at : Option ℕ) (k : ℕ) (text sender : String)
      (before after : List DevicePreKeyBundle) (aad : Option String) (n : ℕ)
      (e : EncryptedMessageEnvelope)
      → All
          (λ x.
            is_bundle_for (generate_device_crypto_state platform device peer created_at k).0 x
            ≡ false)
          before
      → encrypt_message_envelope platform text sender
          (before
            ++ export_device_pre_key_bundle
                (generate_device_crypto_state platform device peer created_at k).0
                expires_at
              ∷ after)
          aad
          n
        ≡ some e
      → decrypt_message_envelope platform e
          (generate_device_crypto_state platform device peer created_at k).0
        ≡ plaintext (without_mark text)
  unfolding generate_device_crypto_state export_device_pre_key_bundle
  decrypt_message_envelope-generate_device_crypto_state device peer created_at expires_at k text
        sender before after aad n e others h =
      let d = (generate_device_crypto_state platform device peer created_at k).0 in
      let b = export_device_pre_key_bundle d expires_at in
      let own : is_bundle_for d b ≡ true = rw (eq_refl device, eq_refl d.pre_key_id) refl in
      decrypt_message_envelope-encrypt text sender before b after aad n d
        (platform.random_secret_key (k + 1)) e (refl, refl) own others h
