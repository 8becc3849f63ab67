-- ===== src/Storage/Vault.antt =====
-- The repository of the chat state: createChatRepository in packages/storage/src/index.ts, with the
-- storage modes and their fallbacks, the encryption of the payload and the vault key. The browser is
-- the record `Browser`: IndexedDB and localStorage, which may be absent or fail, and its
-- cryptography. The base64 text of the initialisation vector and of the encrypted bytes is left out.
pub mod Key
pub mod Open
pub mod RoundTrip
pub mod Fallback
use skypier_chat.Prelude.{ℕ, ◌+◌, Bool, true, false, Option, none, some, List, if◌then◌else◌}
use skypier_chat.Storage.{PersistedChatState, RawState, raw_state, create_initial_chat_state}
use skypier_chat.Storage.Normal.{normalize_persisted_state}

abbrev pub Bytes : Type 0
Bytes = List ℕ

pub data StorageMode : Type 0 where
  indexeddb localstorage memory : StorageMode

pub record SealedPayload (Text : Type 0) : Type 0 where
  pub version : ℕ
  pub iv : Bytes
  pub payload : Text

-- A stored text: what `encryptPayload` wrote, or one that is not such JSON.
pub data StoredText (Text : Type 0) : Type 0 where
  sealed : SealedPayload Text → StoredText Text
  unreadable : StoredText Text

-- `Text` is the type of the bytes of a JSON text, plain or encrypted. The n-th call to the browser: whether the transaction of the database succeeds, whether
-- localStorage takes what is written, and the random bytes. `stringify` and `parse` are JSON with
-- its UTF-8 bytes, `encrypt` and `decrypt` AES-GCM under a key and an initialisation vector.
pub record Browser (Text : Type 0) : Type 0 where
  pub has_indexed_db : Bool
  pub has_local_storage : Bool
  pub database_works : ℕ → Bool
  pub local_storage_accepts : ℕ → Bool
  pub random_bytes : ℕ → ℕ → Bytes
  pub stringify : PersistedChatState → Text
  pub parse : Text → Option RawState
  pub encrypt : Bytes → Bytes → Text → Text
  pub decrypt : Bytes → Bytes → Text → Option Text

-- The three places of the payload, the stored key and the cached one.
pub record Vault (Text : Type 0) : Type 0 where
  pub database : Option (StoredText Text)
  pub local_payload : Option (StoredText Text)
  pub local_key : Option Bytes
  pub memory_payload : Option (StoredText Text)
  pub cached_key : Option Bytes
  pub calls : ℕ

abbrev pub tick : {Text : Type 0} → Vault Text → Vault Text
tick v = record v { calls = v.calls + 1 }

abbrev pub normalize_parsed : Option RawState → Option PersistedChatState
normalize_parsed none = none
normalize_parsed (some raw) = some (normalize_persisted_state raw)

-- The second normalisation of a state that `decryptPayload` has normalised.
abbrev pub normalize_again : PersistedChatState → PersistedChatState
normalize_again s = normalize_persisted_state (raw_state s)

-- What is left of the page's variables when it is loaded again.
abbrev pub reload : {Text : Type 0} → Vault Text → Vault Text
reload v = record v { memory_payload = none; cached_key = none }

module _ {Text : Type 0} (browser : Browser Text) where
  unfoldable pub resolve_storage_mode : StorageMode
  resolve_storage_mode =
      if browser.has_indexed_db
      then indexeddb
      else if browser.has_local_storage
      then localstorage
      else memory

  unfoldable pub read_persisted_payload :
      StorageMode → Vault Text → Option (StoredText Text) × Vault Text
  read_persisted_payload indexeddb v = (
    if browser.database_works v.calls
        then v.database
        else if browser.has_local_storage
        then v.local_payload
        else v.memory_payload,
    tick v,
  )
  read_persisted_payload localstorage v = (v.local_payload, v)
  read_persisted_payload memory v = (v.memory_payload, v)

  -- localStorage.setItem; false where it throws
  abbrev pub set_local_payload : StoredText Text → Vault Text → Bool × Vault Text
  set_local_payload t v =
      if browser.local_storage_accepts v.calls
      then (true, tick (record v { local_payload = some t }))
      else (false, tick v)

  unfoldable pub write_persisted_payload :
      StorageMode → StoredText Text → Vault Text → Bool × Vault Text
  write_persisted_payload indexeddb t v =
      if browser.database_works v.calls
      then (true, tick (record v { database = some t }))
      else if browser.has_local_storage
      then set_local_payload t (tick v)
      else (true, tick (record v { memory_payload = some t }))
  write_persisted_payload localstorage t v = set_local_payload t v
  write_persisted_payload memory t v = (true, record v { memory_payload = some t })

  -- persistVaultKey with the import of the key; none where localStorage throws
  abbrev pub persist_vault_key : Bytes → Vault Text → Option Bytes × Vault Text
  persist_vault_key key v =
      if browser.has_local_storage
      then if browser.local_storage_accepts v.calls
        then (some key, tick (record v { local_key = some key; cached_key = some key }))
        else (none, tick v)
      else (some key, record v { cached_key = some key })

  abbrev pub read_or_make_key : Option Bytes → Vault Text → Option Bytes × Vault Text
  read_or_make_key (some key) v = (some key, record v { cached_key = some key })
  read_or_make_key none v = persist_vault_key (browser.random_bytes v.calls 32) (tick v)

  abbrev pub use_cached_key : Option Bytes → Vault Text → Option Bytes × Vault Text
  use_cached_key (some key) v = (some key, v)
  use_cached_key none v =
      read_or_make_key (if browser.has_local_storage then v.local_key else none) v

  -- getVaultKey
  unfoldable pub get_vault_key : Vault Text → Option Bytes × Vault Text
  get_vault_key v = use_cached_key v.cached_key v

  abbrev pub seal :
      PersistedChatState → Option Bytes × Vault Text → Option (StoredText Text) × Vault Text
  seal s (none, v) = (none, v)
  seal s (some key, v) = (
    some (
        sealed (record {
          version = 1;
          iv = browser.random_bytes v.calls 12;
          payload = browser.encrypt key (browser.random_bytes v.calls 12) (browser.stringify s);
        })),
    tick v,
  )

  unfoldable pub encrypt_payload :
      PersistedChatState → Vault Text → Option (StoredText Text) × Vault Text
  encrypt_payload s v = seal s (get_vault_key v)

  abbrev pub parse_state : Option Text → Option PersistedChatState
  parse_state none = none
  parse_state (some bytes) = normalize_parsed (browser.parse bytes)

  abbrev pub unseal :
      SealedPayload Text → Option Bytes × Vault Text → Option PersistedChatState × Vault Text
  unseal p (none, v) = (none, v)
  unseal p (some key, v) = (parse_state (browser.decrypt key p.iv p.payload), v)

  unfoldable pub decrypt_payload :
      StoredText Text → Vault Text → Option PersistedChatState × Vault Text
  decrypt_payload unreadable v = (none, v)
  decrypt_payload (sealed p) v = unseal p (get_vault_key v)

  abbrev pub write_sealed : Option (StoredText Text) × Vault Text → Bool × Vault Text
  write_sealed (none, v) = (false, v)
  write_sealed (some t, v) = write_persisted_payload resolve_storage_mode t v

  -- saveState, the repository's save; false where its promise is rejected
  unfoldable pub save_state : PersistedChatState → Vault Text → Bool × Vault Text
  save_state s v = write_sealed (encrypt_payload s v)

  abbrev pub reset_result : Bool × Vault Text → Option PersistedChatState × Vault Text
  reset_result (true, v) = (some create_initial_chat_state, v)
  reset_result (false, v) = (none, v)

  -- The initial state is saved and returned.
  unfoldable pub reset_state : Vault Text → Option PersistedChatState × Vault Text
  reset_state v = reset_result (save_state create_initial_chat_state v)

  abbrev pub opened :
      Option PersistedChatState × Vault Text → Option PersistedChatState × Vault Text
  opened (some s, v) = (some (normalize_again s), v)
  opened (none, v) = reset_state v

  abbrev pub open_text :
      Option (StoredText Text) × Vault Text → Option PersistedChatState × Vault Text
  open_text (none, v) = reset_state v
  open_text (some t, v) = opened (decrypt_payload t v)

  -- The repository's load; none where its promise is rejected
  unfoldable pub load_state : Vault Text → Option PersistedChatState × Vault Text
  load_state v = open_text (read_persisted_payload resolve_storage_mode v)
