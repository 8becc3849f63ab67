-- ===== src/Storage/Attachments.antt =====
-- The blobs of attachments: saveAttachmentBlob and loadAttachmentBlob in
-- packages/storage/src/index.ts, over IndexedDB, which may be absent or fail, and a map in memory.
pub mod RoundTrip
use skypier_chat.Prelude.{ℕ, ◌+◌, String, Bool, Option, none, some, if◌then◌else◌, ◌==◌}
use skypier_chat.Prelude.Maps.{Dict, get, put}

-- Whether there is an IndexedDB, and whether its n-th transaction succeeds.
pub record BlobDatabase : Type 0 where
  pub present : Bool
  pub works : ℕ → Bool

pub record AttachmentStore (Blob : Type 0) : Type 0 where
  pub database : Dict Blob
  pub memory : Dict Blob
  pub calls : ℕ

module _ {Blob : Type 0} (db : BlobDatabase) where
  abbrev pub put_in_memory : String → Blob → AttachmentStore Blob → AttachmentStore Blob
  put_in_memory key blob s = record s { memory = put s.memory key blob }

  abbrev pub called_once : AttachmentStore Blob → AttachmentStore Blob
  called_once s = record s { calls = s.calls + 1 }

  unfoldable pub save_attachment_blob : String → Blob → AttachmentStore Blob → AttachmentStore Blob
  save_attachment_blob key blob s =
      if key == ""
      then s
      else if db.present
      then if db.works s.calls
        then record (called_once s) { database = put s.database key blob }
        else put_in_memory key blob (called_once s)
      else put_in_memory key blob s

  unfoldable pub load_attachment_blob :
      String → AttachmentStore Blob → Option Blob × AttachmentStore Blob
  load_attachment_blob key s =
      if key == ""
      then (none, s)
      else if db.present
      then (if db.works s.calls then get s.database key else get s.memory key, called_once s)
      else (get s.memory key, s)
