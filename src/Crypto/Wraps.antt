-- ===== src/Crypto/Wraps.antt =====
-- The key wraps of an envelope: what each holds, and which one a device finds.
use skypier_chat.Prelude.{
  some_injective, ℕ, ◌+◌, String, ◌≡◌, refl, sym, ap, ◌∙◌, Bool, true, false, ◌&&◌, Option, none,
  some, List, [], ◌∷◌, ◌++◌, find, ◌==◌, All,
}
use skypier_chat.Prelude.Text.{without_mark}
use skypier_chat.Protocol.{LocalDeviceCryptoState, DevicePreKeyBundle, RecipientKeyWrap}
use skypier_chat.Crypto.{
  Platform, is_wrap_for, wrap_with, wrap_content_key_for_recipient, add_wrap, wrap_all,
}

-- What the platform promises: base64 gives back what it was given, and so does UTF-8 but for a
-- byte order mark at the beginning of a text, which TextDecoder leaves out; the two sides of a key
-- agreement come to the same secret, and AES-GCM opens what it sealed.
pub record IsLawful {Bytes : Type 0} (platform : Platform Bytes) : Type 0 where
  pub base64 : (b : Bytes) → platform.atob (platform.btoa b) ≡ some b
  pub utf8 : (s : String) → platform.decode (platform.encode s) ≡ without_mark s
  pub agreement :
      (a b : Bytes)
      → platform.shared_secret a (platform.public_key b)
        ≡ platform.shared_secret b (platform.public_key a)
  pub aes :
      (key iv : Bytes) (aad : Option Bytes) (m : Bytes)
      → platform.decrypt key iv aad (platform.encrypt key iv aad m) ≡ some m

-- A bundle of the device: its wrap is the one that the device looks for.
abbrev pub is_bundle_for : LocalDeviceCryptoState → DevicePreKeyBundle → Bool
is_bundle_for d b = b.device_id == d.device_id && b.pre_key_id == d.pre_key_id

find-here :
    (p : RecipientKeyWrap → Bool) (w : RecipientKeyWrap) (ws : List RecipientKeyWrap)
    → p w ≡ true
    → find p (w ∷ ws) ≡ some w
find-here p w ws h = rw h refl

find-later :
    (p : RecipientKeyWrap → Bool) (w : RecipientKeyWrap) (ws : List RecipientKeyWrap)
    → p w ≡ false
    → find p (w ∷ ws) ≡ find p ws
find-later p w ws h = rw h refl

module _ {Bytes : Type 0} (platform : Platform Bytes) where
  is_wrap_for-wrap_with :
      (d : LocalDeviceCryptoState) (key : Bytes) (b : DevicePreKeyBundle) (sender : String) (n : ℕ)
      (o : Option Bytes) (w : RecipientKeyWrap)
      → wrap_with platform key b sender n o ≡ some w
      → is_wrap_for d w ≡ is_bundle_for d b
  is_wrap_for-wrap_with d key b sender n none w e = cc e
  is_wrap_for-wrap_with d key b sender n (some secret) w e =
      ap (is_wrap_for d) (sym (some_injective e))

  is_wrap_for-wrap :
      (d : LocalDeviceCryptoState) (key : Bytes) (b : DevicePreKeyBundle) (sender : String) (n : ℕ)
      (w : RecipientKeyWrap)
      → wrap_content_key_for_recipient platform key b sender n ≡ some w
      → is_wrap_for d w ≡ is_bundle_for d b
  unfolding wrap_content_key_for_recipient
  is_wrap_for-wrap d key b sender n w e = is_wrap_for-wrap_with d key b sender n _ w e

  -- The parts of a list of wraps.
  abbrev Added :
      Option RecipientKeyWrap → Option (List RecipientKeyWrap) → List RecipientKeyWrap → Type 0
  Added x y ws =
      (w : RecipientKeyWrap) × (rest : List RecipientKeyWrap) × (x ≡ some w)
      × (y ≡ some rest)
      × (ws ≡ w ∷ rest)

  add_wrap-Added :
      (x : Option RecipientKeyWrap) (y : Option (List RecipientKeyWrap))
      (ws : List RecipientKeyWrap)
      → add_wrap platform x y ≡ some ws
      → Added x y ws
  add_wrap-Added none y ws e = cc e
  add_wrap-Added (some w) none ws e = cc e
  add_wrap-Added (some w) (some rest) ws e = (w, rest, refl, refl, cc)

  -- The first wrap that the device finds is the wrap for the first of its bundles.
  pub find-wrap_all :
      (d : LocalDeviceCryptoState) (key : Bytes) (before : List DevicePreKeyBundle)
      (b : DevicePreKeyBundle) (after : List DevicePreKeyBundle) (sender : String) (n : ℕ)
      (ws : List RecipientKeyWrap)
      → All (λ x. is_bundle_for d x ≡ false) before
      → is_bundle_for d b ≡ true
      → wrap_all platform key (before ++ b ∷ after) sender n ≡ some ws
      → (m : ℕ) × (w : RecipientKeyWrap) × (find (is_wrap_for d) ws ≡ some w)
        × (wrap_content_key_for_recipient platform key b sender m ≡ some w)
  unfolding wrap_all
  find-wrap_all d key [] b after sender n ws none_before is_own e =
      let (w, rest, own, others, parts) = add_wrap-Added _ _ ws e in
      (
        n,
        w,
        ap (find (is_wrap_for d)) parts
            ∙ find-here (is_wrap_for d) w rest (is_wrap_for-wrap d key b sender n w own ∙ is_own),
        own,
      )
  find-wrap_all d key (x ∷ before) b after sender n ws none_before is_own e =
      let (w, rest, own, others, parts) = add_wrap-Added _ _ ws e in
      let (m, found, at, from) =
        find-wrap_all d key before b after sender (n + 3) rest none_before.1 is_own others in
      (
        m,
        found,
        ap (find (is_wrap_for d)) parts
            ∙ find-later (is_wrap_for d) w rest
                (is_wrap_for-wrap d key x sender n w own ∙ none_before.0)
            ∙ at,
        from,
      )

  -- Where no bundle is the device's, it finds no wrap.
  pub find-wrap_all_missing :
      (d : LocalDeviceCryptoState) (key : Bytes) (bs : List DevicePreKeyBundle) (sender : String)
      (n : ℕ) (ws : List RecipientKeyWrap)
      → All (λ x. is_bundle_for d x ≡ false) bs
      → wrap_all platform key bs sender n ≡ some ws
      → find (is_wrap_for d) ws ≡ none
  unfolding wrap_all
  find-wrap_all_missing d key [] sender n ws no_bundle e =
      let empty : ws ≡ [] = cc in ap (find (is_wrap_for d)) empty
  find-wrap_all_missing d key (x ∷ bs) sender n ws no_bundle e =
      let (w, rest, own, others, parts) = add_wrap-Added _ _ ws e in
      ap (find (is_wrap_for d)) parts
      ∙ find-later (is_wrap_for d) w rest (is_wrap_for-wrap d key x sender n w own ∙ no_bundle.0)
      ∙ find-wrap_all_missing d key bs sender (n + 3) rest no_bundle.1 others
