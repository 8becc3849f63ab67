-- ===== src/Storage/Vault/RoundTrip.antt =====
-- Saving and loading the chat state, in one page and across a reload.
use skypier_chat.Prelude.{
  ℕ, ◌≡◌, refl, ◌∙◌, Bool, true, false, Option, none, some, Bool-cases, inl, inr, if◌then◌else◌,
}
use skypier_chat.Storage.{PersistedChatState, raw_state}
use skypier_chat.Storage.Normal.{normalize_persisted_state}
use skypier_chat.Storage.Vault.{
  Browser, Vault, Bytes, StoredText, StorageMode, indexeddb, localstorage, memory, tick, reload,
  get_vault_key, seal, encrypt_payload, write_persisted_payload, resolve_storage_mode,
  read_persisted_payload, write_sealed, save_state, load_state,
}
use skypier_chat.Storage.Vault.Open.{IsLawful, Unlocks, sealed_with, open_text-state}
use skypier_chat.Storage.Vault.Key.{
  IsConsistent, HasKey, get_vault_key-HasKey, save_state-IsConsistent,
}

module _ {Text : Type 0} (browser : Browser Text) (laws : IsLawful browser)
    (works : (n : ℕ) → browser.database_works n ≡ true) where
  abbrev place : StorageMode → Vault Text → Option (StoredText Text)
  place indexeddb v = v.database
  place localstorage v = v.local_payload
  place memory v = v.memory_payload

  abbrev Holds : Vault Text → PersistedChatState → Type 0
  Holds v s =
      (key : Bytes) × (iv : Bytes) × Unlocks browser v key
      × (place (resolve_storage_mode browser) v ≡ some (sealed_with browser key iv s))

  -- A write that succeeds puts the text in its place and keeps the keys.
  abbrev Placed : StorageMode → StoredText Text → Vault Text → Bool × Vault Text → Type 0
  Placed mode t v (false, v') = Unit
  Placed mode t v (true, v') = (place mode v' ≡ some t) × (v'.cached_key ≡ v.cached_key)

  write_persisted_payload-Placed :
      (mode : StorageMode) (t : StoredText Text) (v : Vault Text)
      → Placed mode t v (write_persisted_payload browser mode t v)
  unfolding write_persisted_payload
  write_persisted_payload-Placed memory t v = (refl, refl)
  write_persisted_payload-Placed indexeddb t v = rw (works v.calls) (refl, refl)
  write_persisted_payload-Placed localstorage t v =
      elim (Bool-cases (browser.local_storage_accepts v.calls)) [
        | inl taken ↦ rw taken (refl, refl)
        | inr full ↦ rw full tt
      ]

  Placed-Holds :
      (s : PersistedChatState) (key iv : Bytes) (v : Vault Text) (r : Bool × Vault Text)
      → v.cached_key ≡ some key
      → Placed (resolve_storage_mode browser) (sealed_with browser key iv s) v r
      → r.0 ≡ true
      → Holds r.1 s
  Placed-Holds s key iv v (true, v') k h e = (key, iv, inl (h.1 ∙ k), h.0)
  Placed-Holds s key iv v (false, v') k h e = cc e

  write_sealed-Holds :
      (s : PersistedChatState) (r : Option Bytes × Vault Text)
      → HasKey browser r
      → (write_sealed browser (seal browser s r)).0 ≡ true
      → Holds (write_sealed browser (seal browser s r)).1 s
  write_sealed-Holds s (none, v) k e = cc e
  write_sealed-Holds s (some key, v) k e =
      let iv = browser.random_bytes v.calls 12 in
      let t = sealed_with browser key iv s in
      let mode = resolve_storage_mode browser in
      Placed-Holds s key iv (tick v) (write_persisted_payload browser mode t (tick v)) k
        (write_persisted_payload-Placed mode t (tick v)) e

  save_state-Holds :
      (s : PersistedChatState) (v : Vault Text)
      → (save_state browser s v).0 ≡ true
      → Holds (save_state browser s v).1 s
  unfolding save_state encrypt_payload
  save_state-Holds s v e =
      write_sealed-Holds s (get_vault_key browser v) (get_vault_key-HasKey browser v) e

  read_persisted_payload-Holds :
      (mode : StorageMode) (v : Vault Text) (t : StoredText Text)
      → place mode v ≡ some t
      → (read_persisted_payload browser mode v).0 ≡ some t
  unfolding read_persisted_payload
  read_persisted_payload-Holds memory v t e = e
  read_persisted_payload-Holds localstorage v t e = e
  read_persisted_payload-Holds indexeddb v t e = rw (works v.calls) e

  read_persisted_payload-Unlocks :
      (mode : StorageMode) (v : Vault Text) (key : Bytes)
      → Unlocks browser v key
      → Unlocks browser (read_persisted_payload browser mode v).1 key
  unfolding read_persisted_payload
  read_persisted_payload-Unlocks memory v key u = u
  read_persisted_payload-Unlocks localstorage v key u = u
  read_persisted_payload-Unlocks indexeddb v key u = u

  load_state-Holds :
      (s : PersistedChatState) (v : Vault Text)
      → Holds v s
      → (load_state browser v).0 ≡ some (normalize_persisted_state (raw_state s))
  unfolding load_state
  load_state-Holds s v (key, iv, u, e) =
      let mode = resolve_storage_mode browser in
      open_text-state browser laws s key iv (read_persisted_payload browser mode v)
        (read_persisted_payload-Unlocks mode v key u)
        (read_persisted_payload-Holds mode v (sealed_with browser key iv s) e)

  -- Where JSON and AES-GCM give back what they were given and no transaction of the database
  -- fails, a state that was saved with success is the state that is loaded in the same page, but
  -- for its normalisation.
  pub load_state-save_state :
      (s : PersistedChatState) (v : Vault Text)
      → (save_state browser s v).0 ≡ true
      → (load_state browser (save_state browser s v).1).0
        ≡ some (normalize_persisted_state (raw_state s))
  load_state-save_state s v e =
      load_state-Holds s (save_state browser s v).1 (save_state-Holds s v e)

  Unlocks-reload :
      (v : Vault Text) (key : Bytes)
      → browser.has_local_storage ≡ true
      → IsConsistent browser v
      → Unlocks browser v key
      → Unlocks browser (reload v) key
  Unlocks-reload v key there c (inl cached) = inr (refl, there, c there key cached)
  Unlocks-reload v key there c (inr (empty, _, stored)) = inr (refl, there, stored)

  place-reload_by :
      (b c : Bool) (v : Vault Text)
      → c ≡ true
      → place (if b then indexeddb else if c then localstorage else memory) (reload v)
        ≡ place (if b then indexeddb else if c then localstorage else memory) v
  place-reload_by true c v h = refl
  place-reload_by false true v h = refl
  place-reload_by false false v h = cc h

  place-reload :
      (v : Vault Text)
      → browser.has_local_storage ≡ true
      → place (resolve_storage_mode browser) (reload v) ≡ place (resolve_storage_mode browser) v
  unfolding resolve_storage_mode
  place-reload v there = place-reload_by browser.has_indexed_db browser.has_local_storage v there

  -- Where JSON and AES-GCM give back what they were given, no transaction of the database fails,
  -- there is a localStorage, and the cached key, if any, is the stored one: a state that was saved
  -- with success is the state that is loaded after a reload of the page, which forgets the page's
  -- variables, but for its normalisation.
  pub load_state-reload :
      (s : PersistedChatState) (v : Vault Text)
      → browser.has_local_storage ≡ true
      → IsConsistent browser v
      → (save_state browser s v).0 ≡ true
      → (load_state browser (reload (save_state browser s v).1)).0
        ≡ some (normalize_persisted_state (raw_state s))
  load_state-reload s v there c e =
      let v' = (save_state browser s v).1 in
      let held = save_state-Holds s v e in
      load_state-Holds s (reload v') (
        held.0,
        held.1,
        Unlocks-reload v' held.0 there (save_state-IsConsistent browser s v c) held.2,
        place-reload v' there ∙ held.3,
      )
