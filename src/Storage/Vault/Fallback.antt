-- ===== src/Storage/Vault/Fallback.antt =====
-- A save that falls back to localStorage while IndexedDB fails once.
use skypier_chat.Prelude.{◌+◌, ◌≡◌, refl, true, false, some, inl}
use skypier_chat.Storage.{PersistedChatState, raw_state}
use skypier_chat.Storage.Normal.{normalize_persisted_state}
use skypier_chat.Storage.Vault.{
  Browser, Vault, Bytes, indexeddb, get_vault_key, encrypt_payload, write_persisted_payload,
  resolve_storage_mode, read_persisted_payload, save_state, load_state,
}
use skypier_chat.Storage.Vault.Open.{IsLawful, sealed_with, open_text-state}

module _ {Text : Type 0} (browser : Browser Text) (laws : IsLawful browser) where
  -- The vault after the save: the new payload stands in localStorage alone.
  abbrev fallen_back : Bytes → PersistedChatState → Vault Text → Vault Text
  fallen_back key s v = record v {
    local_payload = some (sealed_with browser key (browser.random_bytes v.calls 12) s);
    calls = v.calls + 1 + 1 + 1;
  }

  resolve_storage_mode_indexeddb :
      browser.has_indexed_db ≡ true → resolve_storage_mode browser ≡ indexeddb
  unfolding resolve_storage_mode
  resolve_storage_mode_indexeddb db = rw db refl

  save_state_falls_back :
      (s : PersistedChatState) (key : Bytes) (v : Vault Text)
      → browser.has_indexed_db ≡ true
      → browser.has_local_storage ≡ true
      → v.cached_key ≡ some key
      → browser.database_works (v.calls + 1) ≡ false
      → browser.local_storage_accepts (v.calls + 1 + 1) ≡ true
      → save_state browser s v ≡ (true, fallen_back key s v)
  unfolding save_state encrypt_payload get_vault_key write_persisted_payload resolve_storage_mode
  save_state_falls_back s key v db there cached fails takes =
      rw cached (rw db (rw fails (rw there (rw takes refl))))

  -- Where JSON and AES-GCM give back what they were given, and IndexedDB holds a state sealed
  -- under the cached key and fails while the next state is saved, the save succeeds if
  -- localStorage takes what is written; if IndexedDB works at the load that follows, that load
  -- gives the state from before.
  pub load_state_stale :
      (old new : PersistedChatState) (key iv : Bytes) (v : Vault Text)
      → browser.has_indexed_db ≡ true
      → browser.has_local_storage ≡ true
      → v.cached_key ≡ some key
      → v.database ≡ some (sealed_with browser key iv old)
      → browser.database_works (v.calls + 1) ≡ false
      → browser.local_storage_accepts (v.calls + 1 + 1) ≡ true
      → browser.database_works (v.calls + 1 + 1 + 1) ≡ true
      → ((save_state browser new v).0 ≡ true)
        × ((load_state browser (save_state browser new v).1).0
            ≡ some (normalize_persisted_state (raw_state old)))
  unfolding load_state read_persisted_payload
  load_state_stale old new key iv v db there cached held fails takes works =
      let saved = save_state_falls_back new key v db there cached fails takes in
      rw saved (
        refl,
        rw (resolve_storage_mode_indexeddb db) (
            open_text-state browser laws old key iv
              (read_persisted_payload browser indexeddb (fallen_back key new v)) (inl cached)
              (rw works held)),
      )
