-- ===== src/Crypto/Tests.antt =====
-- Messages encrypted and decrypted over a small platform.
use Prim.Native.String.{◌++◌, len, slice}
use text.Mathlib.TextPositions.{len-append, slice-append_right}
use skypier_chat.Prelude.{◌+◌, String, ◌≡◌, refl, ap, ◌∙◌, false, none, some, [], ◌∷◌, arith}
use skypier_chat.Prelude.Text.{decimal, without_mark}
use skypier_chat.Protocol.{LocalDeviceCryptoState, DevicePreKeyBundle, EncryptedMessageEnvelope}
use skypier_chat.Crypto.{
  Platform, plaintext, no_key_wrap, encrypt_message_envelope, decrypt_message_envelope,
  generate_device_crypto_state, export_device_pre_key_bundle, wrap_all,
  wrap_content_key_for_recipient,
}
use skypier_chat.Crypto.Wraps.{IsLawful, is_bundle_for}
use skypier_chat.Crypto.RoundTrip.{
  decrypt_message_envelope-generate_device_crypto_state, decrypt_message_envelope-encrypt,
  decrypt_message_envelope-no_key_wrap,
}

-- Its bytes are texts; a sealed text is the key with the text behind it.
abbrev toy : Platform String
toy = record {
  btoa = λ b. b;
  atob = λ s. some s;
  encode = λ s. s;
  decode = λ b. without_mark b;
  random_bytes = λ n size. decimal n ":";
  random_secret_key = λ n. decimal n "s";
  public_key = λ b. b;
  shared_secret = λ a b. some (decimal (len a + len b) "");
  derive = λ secret salt info. secret ++ (salt ++ info);
  encrypt = λ key iv aad m. key ++ m;
  decrypt = λ key iv aad c. some (slice c (len key) (len c));
  now = λ n. n;
  iso_text = λ t. decimal t "Z";
}

slice-sealed : (key m : String) → slice (key ++ m) (len key) (len (key ++ m)) ≡ m
slice-sealed key m =
    ap (λ k. slice (key ++ m) (len key) k) (len-append key m) ∙ slice-append_right key m

toy-IsLawful : IsLawful toy
toy-IsLawful = record {
  base64 = λ b. refl;
  utf8 = λ s. refl;
  agreement = λ a b. ap (λ k. some (decimal k "")) (omega arith);
  aes = λ key iv aad m. ap (λ x. some x) (slice-sealed key m);
}

abbrev phone : LocalDeviceCryptoState
phone = record {
  device_id = "phone";
  peer_id = "ari";
  identity_private_key = "1s";
  identity_public_key = "1s";
  pre_key_id = "prekey-0Z";
  pre_key_private_key = "2s";
  pre_key_public_key = "2s";
  created_at = 0;
}

abbrev bundle : String → DevicePreKeyBundle
bundle device = record {
  device_id = device;
  peer_id = "ari";
  identity_public_key = "1s";
  pre_key_id = "prekey-0Z";
  pre_key_public_key = "2s";
  created_at = 0;
  expires_at = none;
}

the_envelope :
    (e : EncryptedMessageEnvelope) × (encrypt_message_envelope toy "hello" "me"
        (bundle "laptop" ∷ bundle "phone" ∷ [])
        (some "conv-1")
        5
      ≡ some e)
unfolding encrypt_message_envelope wrap_all wrap_content_key_for_recipient
the_envelope = (_, refl)

decrypt_message_envelope-encrypt_example :
    decrypt_message_envelope toy the_envelope.0 phone ≡ plaintext "hello"
decrypt_message_envelope-encrypt_example =
    decrypt_message_envelope-encrypt toy toy-IsLawful "hello" "me" (bundle "laptop" ∷ [])
      (bundle "phone") [] (some "conv-1") 5 phone "2s" the_envelope.0 (refl, refl) refl (refl, tt)
      the_envelope.1

abbrev tablet : LocalDeviceCryptoState
tablet = record phone { device_id = "tablet" }

no_wrap_for_tablet : decrypt_message_envelope toy the_envelope.0 tablet ≡ no_key_wrap
no_wrap_for_tablet =
    decrypt_message_envelope-no_key_wrap toy toy-IsLawful "hello" "me"
      (bundle "laptop" ∷ bundle "phone" ∷ []) (some "conv-1") 5 tablet the_envelope.0
      (refl, (refl, tt)) the_envelope.1

abbrev generated : LocalDeviceCryptoState
generated = (generate_device_crypto_state toy "phone" "ari" none 1).0

generated_envelope :
    (e : EncryptedMessageEnvelope) × (encrypt_message_envelope toy "hello" "me"
        (bundle "laptop" ∷ export_device_pre_key_bundle generated none ∷ [])
        none
        9
      ≡ some e)
unfolding encrypt_message_envelope wrap_all wrap_content_key_for_recipient
generated_envelope = (_, refl)

other_device : is_bundle_for generated (bundle "laptop") ≡ false
unfolding generate_device_crypto_state
other_device = refl

generated_device_reads :
    decrypt_message_envelope toy generated_envelope.0 generated ≡ plaintext "hello"
generated_device_reads =
    decrypt_message_envelope-generate_device_crypto_state toy toy-IsLawful "phone" "ari" none none 1
      "hello" "me" (bundle "laptop" ∷ []) [] none 9 generated_envelope.0 (other_device, tt)
      generated_envelope.1
