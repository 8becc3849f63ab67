-- ===== src/Storage/Vault/Open.antt =====
-- Opening a stored payload with the key that it was sealed with.
use skypier_chat.Prelude.{◌≡◌, refl, ap, ◌∙◌, true, Option, none, some, inl, inr, ◌⊎◌}
use skypier_chat.Storage.{PersistedChatState, raw_state}
use skypier_chat.Storage.Normal.{normalize_persisted_state, normalize_persisted_state_idem}
use skypier_chat.Storage.Vault.{
  Browser, Vault, Bytes, StoredText, sealed, get_vault_key, parse_state, normalize_parsed, unseal,
  decrypt_payload, opened, open_text,
}

-- What JSON and AES-GCM promise.
pub record IsLawful {Text : Type 0} (browser : Browser Text) : Type 0 where
  pub json : (s : PersistedChatState) → browser.parse (browser.stringify s) ≡ some (raw_state s)
  pub aes :
      (key iv : Bytes) (text : Text)
      → browser.decrypt key iv (browser.encrypt key iv text) ≡ some text

module _ {Text : Type 0} (browser : Browser Text) where
  abbrev pub sealed_with : Bytes → Bytes → PersistedChatState → StoredText Text
  sealed_with key iv s =
      sealed
        (record { version = 1; iv = iv; payload = browser.encrypt key iv (browser.stringify s) })

  -- The key is cached, or it will be read from localStorage.
  abbrev pub Unlocks : Vault Text → Bytes → Type 0
  Unlocks v key =
      (v.cached_key ≡ some key)
      ⊎ ((v.cached_key ≡ none) × (browser.has_local_storage ≡ true) × (v.local_key ≡ some key))

module _ {Text : Type 0} (browser : Browser Text) (laws : IsLawful browser) where
  get_vault_key-Unlocks :
      (v : Vault Text) (key : Bytes)
      → Unlocks browser v key
      → (get_vault_key browser v).0 ≡ some key
  unfolding get_vault_key
  get_vault_key-Unlocks v key (inl cached) = rw cached refl
  get_vault_key-Unlocks v key (inr (empty, there, stored)) = rw empty (rw there (rw stored refl))

  unseal-state :
      (s : PersistedChatState) (key iv : Bytes) (r : Option Bytes × Vault Text)
      → r.0 ≡ some key
      → (unseal browser
          (record { version = 1; iv = iv; payload = browser.encrypt key iv (browser.stringify s) })
          r).0
        ≡ some (normalize_persisted_state (raw_state s))
  unseal-state s key iv (none, v) e = cc e
  unseal-state s key iv (some k, v) e =
      let same : k ≡ key = cc in
      rw same (
        ap (parse_state browser) (laws.aes key iv (browser.stringify s))
        ∙ ap normalize_parsed (laws.json s))

  decrypt_payload-state :
      (s : PersistedChatState) (key iv : Bytes) (v : Vault Text)
      → Unlocks browser v key
      → (decrypt_payload browser (sealed_with browser key iv s) v).0
        ≡ some (normalize_persisted_state (raw_state s))
  unfolding decrypt_payload
  decrypt_payload-state s key iv v u =
      unseal-state s key iv (get_vault_key browser v) (get_vault_key-Unlocks v key u)

  opened-state :
      (s : PersistedChatState) (r : Option PersistedChatState × Vault Text)
      → r.0 ≡ some (normalize_persisted_state (raw_state s))
      → (opened browser r).0 ≡ some (normalize_persisted_state (raw_state s))
  opened-state s (none, v) e = cc e
  opened-state s (some x, v) e =
      let same : x ≡ normalize_persisted_state (raw_state s) = cc in
      ap (λ y. some (normalize_persisted_state (raw_state y))) same
      ∙ ap some (normalize_persisted_state_idem (raw_state s))

  pub open_text-state :
      (s : PersistedChatState) (key iv : Bytes) (r : Option (StoredText Text) × Vault Text)
      → Unlocks browser r.1 key
      → r.0 ≡ some (sealed_with browser key iv s)
      → (open_text browser r).0 ≡ some (normalize_persisted_state (raw_state s))
  open_text-state s key iv (none, v) u e = cc e
  open_text-state s key iv (some t, v) u e =
      let same : t ≡ sealed_with browser key iv s = cc in
      opened-state s (decrypt_payload browser t v)
        (ap (λ x. (decrypt_payload browser x v).0) same ∙ decrypt_payload-state s key iv v u)
