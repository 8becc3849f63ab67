-- ===== src/Storage/Vault/Key.antt =====
-- The vault key over the operations of the repository: the key that is cached is the stored one.
use mathlib.Core.Path.{subst}
use skypier_chat.Prelude.{
  ◌≡◌, refl, sym, Bool, true, false, Option, none, some, Bool-cases, inl, inr, if◌then◌else◌, arith,
}
use skypier_chat.Storage.{PersistedChatState, create_initial_chat_state}
use skypier_chat.Storage.Vault.{
  Browser, Vault, Bytes, StoredText, SealedPayload, sealed, unreadable, StorageMode, indexeddb,
  localstorage, memory, tick, get_vault_key, use_cached_key, read_or_make_key, persist_vault_key,
  seal, encrypt_payload, write_persisted_payload, set_local_payload, resolve_storage_mode,
  read_persisted_payload, write_sealed, save_state, decrypt_payload, unseal, reset_state,
  reset_result, opened, open_text, load_state,
}

module _ {Text : Type 0} (browser : Browser Text) where
  -- Where there is a localStorage, the cached key, if any, is the one that it holds.
  abbrev pub IsConsistent : Vault Text → Type 0
  IsConsistent v =
      browser.has_local_storage ≡ true → (k : Bytes) → v.cached_key ≡ some k → v.local_key ≡ some k

  -- What `get_vault_key` leaves: the key that it returns is cached.
  abbrev pub HasKey : Option Bytes × Vault Text → Type 0
  HasKey (none, v) = Unit
  HasKey (some k, v) = v.cached_key ≡ some k

  persist_vault_key-HasKey :
      (key : Bytes) (v : Vault Text) → HasKey (persist_vault_key browser key v)
  persist_vault_key-HasKey key v = elim (Bool-cases browser.has_local_storage) [
    | inl there ↦ elim (Bool-cases (browser.local_storage_accepts v.calls)) [
      | inl ok ↦ rw (there, ok) refl
      | inr full ↦ rw (there, full) tt
    ]
    | inr absent ↦ rw absent refl
  ]

  read_or_make_key-HasKey :
      (o : Option Bytes) (v : Vault Text) → HasKey (read_or_make_key browser o v)
  read_or_make_key-HasKey none v =
      persist_vault_key-HasKey (browser.random_bytes v.calls 32) (tick v)
  read_or_make_key-HasKey (some k) v = refl

  use_cached_key-HasKey :
      (o : Option Bytes) (v : Vault Text) → v.cached_key ≡ o → HasKey (use_cached_key browser o v)
  use_cached_key-HasKey none v h =
      read_or_make_key-HasKey (if browser.has_local_storage then v.local_key else none) v
  use_cached_key-HasKey (some k) v h = h

  pub get_vault_key-HasKey : (v : Vault Text) → HasKey (get_vault_key browser v)
  unfolding get_vault_key
  get_vault_key-HasKey v = use_cached_key-HasKey v.cached_key v refl

  persist_vault_key-IsConsistent :
      (key : Bytes) (v : Vault Text)
      → IsConsistent v
      → IsConsistent (persist_vault_key browser key v).1
  persist_vault_key-IsConsistent key v c = elim (Bool-cases browser.has_local_storage) [
    | inl there ↦ elim (Bool-cases (browser.local_storage_accepts v.calls)) [
      | inl ok ↦ rw (there, ok) (λ h k e. e)
      | inr full ↦ rw (there, full) (λ h k e. c there k e)
    ]
    | inr absent ↦ rw absent (λ h k e. absurd (ground arith))
  ]

  read_or_make_key-IsConsistent :
      (v : Vault Text) (o : Option Bytes)
      → ((k : Bytes) → o ≡ some k → v.local_key ≡ some k)
      → IsConsistent v
      → IsConsistent (read_or_make_key browser o v).1
  read_or_make_key-IsConsistent v none stored c =
      persist_vault_key-IsConsistent (browser.random_bytes v.calls 32) (tick v) c
  read_or_make_key-IsConsistent v (some k) stored c = λ h. stored

  stored_key-is_local :
      (b : Bool) (v : Vault Text) (k : Bytes)
      → (if b then v.local_key else none) ≡ some k
      → v.local_key ≡ some k
  stored_key-is_local true v k e = e
  stored_key-is_local false v k e = cc e

  use_cached_key-IsConsistent :
      (o : Option Bytes) (v : Vault Text)
      → IsConsistent v
      → IsConsistent (use_cached_key browser o v).1
  use_cached_key-IsConsistent none v c =
      read_or_make_key-IsConsistent v (if browser.has_local_storage then v.local_key else none)
        (stored_key-is_local browser.has_local_storage v) c
  use_cached_key-IsConsistent (some k) v c = c

  pub get_vault_key-IsConsistent :
      (v : Vault Text) → IsConsistent v → IsConsistent (get_vault_key browser v).1
  unfolding get_vault_key
  get_vault_key-IsConsistent v c = use_cached_key-IsConsistent v.cached_key v c

  pub seal-IsConsistent :
      (s : PersistedChatState) (r : Option Bytes × Vault Text)
      → IsConsistent r.1
      → IsConsistent (seal browser s r).1
  seal-IsConsistent s (none, v) c = c
  seal-IsConsistent s (some k, v) c = c

  set_local_payload-IsConsistent :
      (t : StoredText Text) (v : Vault Text)
      → IsConsistent v
      → IsConsistent (set_local_payload browser t v).1
  set_local_payload-IsConsistent t v c = elim (Bool-cases (browser.local_storage_accepts v.calls)) [
    | inl ok ↦ rw ok c
    | inr full ↦ rw full c
  ]

  fallback-IsConsistent :
      (b : Bool) (t : StoredText Text) (v : Vault Text)
      → IsConsistent v
      → IsConsistent
          (if b
            then set_local_payload browser t (tick v)
            else (true, tick (record v { memory_payload = some t }))).1
  fallback-IsConsistent true t v c = set_local_payload-IsConsistent t (tick v) c
  fallback-IsConsistent false t v c = c

  write_persisted_payload-IsConsistent :
      (mode : StorageMode) (t : StoredText Text) (v : Vault Text)
      → IsConsistent v
      → IsConsistent (write_persisted_payload browser mode t v).1
  unfolding write_persisted_payload
  write_persisted_payload-IsConsistent memory t v c = c
  write_persisted_payload-IsConsistent localstorage t v c = set_local_payload-IsConsistent t v c
  write_persisted_payload-IsConsistent indexeddb t v c =
      elim (Bool-cases (browser.database_works v.calls)) [
        | inl works ↦ rw works c
        | inr fails ↦ rw fails (fallback-IsConsistent browser.has_local_storage t v c)
      ]

  write_sealed-IsConsistent :
      (r : Option (StoredText Text) × Vault Text)
      → IsConsistent r.1
      → IsConsistent (write_sealed browser r).1
  write_sealed-IsConsistent (none, v) c = c
  write_sealed-IsConsistent (some t, v) c =
      write_persisted_payload-IsConsistent (resolve_storage_mode browser) t v c

  pub save_state-IsConsistent :
      (s : PersistedChatState) (v : Vault Text)
      → IsConsistent v
      → IsConsistent (save_state browser s v).1
  unfolding save_state encrypt_payload
  save_state-IsConsistent s v c =
      write_sealed-IsConsistent (seal browser s (get_vault_key browser v))
        (seal-IsConsistent s (get_vault_key browser v) (get_vault_key-IsConsistent v c))

  reset_result-vault : (r : Bool × Vault Text) → (reset_result browser r).1 ≡ r.1
  reset_result-vault (true, v) = refl
  reset_result-vault (false, v) = refl

  reset_state-IsConsistent :
      (v : Vault Text) → IsConsistent v → IsConsistent (reset_state browser v).1
  unfolding reset_state
  reset_state-IsConsistent v c =
      subst IsConsistent (sym (reset_result-vault (save_state browser create_initial_chat_state v)))
        (save_state-IsConsistent create_initial_chat_state v c)

  unseal-IsConsistent :
      (p : SealedPayload Text) (r : Option Bytes × Vault Text)
      → IsConsistent r.1
      → IsConsistent (unseal browser p r).1
  unseal-IsConsistent p (none, v) c = c
  unseal-IsConsistent p (some k, v) c = c

  decrypt_payload-IsConsistent :
      (t : StoredText Text) (v : Vault Text)
      → IsConsistent v
      → IsConsistent (decrypt_payload browser t v).1
  unfolding decrypt_payload
  decrypt_payload-IsConsistent unreadable v c = c
  decrypt_payload-IsConsistent (sealed p) v c =
      unseal-IsConsistent p (get_vault_key browser v) (get_vault_key-IsConsistent v c)

  opened-IsConsistent :
      (r : Option PersistedChatState × Vault Text)
      → IsConsistent r.1
      → IsConsistent (opened browser r).1
  opened-IsConsistent (some s, v) c = c
  opened-IsConsistent (none, v) c = reset_state-IsConsistent v c

  open_text-IsConsistent :
      (r : Option (StoredText Text) × Vault Text)
      → IsConsistent r.1
      → IsConsistent (open_text browser r).1
  open_text-IsConsistent (none, v) c = reset_state-IsConsistent v c
  open_text-IsConsistent (some t, v) c =
      opened-IsConsistent (decrypt_payload browser t v) (decrypt_payload-IsConsistent t v c)

  read_persisted_payload-IsConsistent :
      (mode : StorageMode) (v : Vault Text)
      → IsConsistent v
      → IsConsistent (read_persisted_payload browser mode v).1
  unfolding read_persisted_payload
  read_persisted_payload-IsConsistent indexeddb v c = c
  read_persisted_payload-IsConsistent localstorage v c = c
  read_persisted_payload-IsConsistent memory v c = c

  -- Where there is a localStorage and the cached vault key, if any, is the stored one, so it is
  -- after a load, on every path: with the payload read or missing, decrypted or replaced by the
  -- initial state, and with the writes taken or refused.
  pub load_state-IsConsistent :
      (v : Vault Text) → IsConsistent v → IsConsistent (load_state browser v).1
  unfolding load_state
  load_state-IsConsistent v c =
      let mode = resolve_storage_mode browser in
      open_text-IsConsistent (read_persisted_payload browser mode v)
        (read_persisted_payload-IsConsistent mode v c)
