-- ===== src/Storage/Attachments/RoundTrip.antt =====
-- Which blob a load gives after a save.
use skypier_chat.Prelude.{
  ◌+◌, String, ◌≡◌, refl, true, false, some, if◌then◌else◌, ◌==◌, Bool-cases, inl, inr, ◌∙◌,
}
use skypier_chat.Prelude.Maps.{get, get-put}
use skypier_chat.Storage.Attachments.{
  BlobDatabase, AttachmentStore, save_attachment_blob, load_attachment_blob,
}

module _ {Blob : Type 0} (db : BlobDatabase) where
  -- A blob that is saved under a key that is not empty is loaded again, whether there is a database
  -- or not, if the database, where there is one, takes the save and the load or fails at both; and
  -- what is loaded under another key is what was loaded before the save.
  pub load_attachment_blob-save_attachment_blob :
      (key other : String) (blob : Blob) (s : AttachmentStore Blob)
      → (key == "") ≡ false
      → (other == "") ≡ false
      → db.works (s.calls + 1) ≡ db.works s.calls
      → (load_attachment_blob db other (save_attachment_blob db key blob s)).0
        ≡ (if key == other then some blob else (load_attachment_blob db other s).0)
  unfolding load_attachment_blob save_attachment_blob
  load_attachment_blob-save_attachment_blob key other blob s full full' steady =
      elim (Bool-cases db.present) [
        | inl there ↦ elim (Bool-cases (db.works s.calls)) [
          | inl ok ↦ simp (full, full', there, ok, steady ∙ ok) (get-put s.database key other blob)
          | inr bad ↦ simp (full, full', there, bad, steady ∙ bad) (get-put s.memory key other blob)
        ]
        | inr absent ↦ simp (full, full', absent) (get-put s.memory key other blob)
      ]

  -- A blob that is saved while a transaction of the database fails goes to the memory alone: once
  -- the database works again a load does not give it, but what the database held under the key.
  pub load_attachment_blob_stale :
      (key : String) (blob : Blob) (s : AttachmentStore Blob)
      → (key == "") ≡ false
      → db.present ≡ true
      → db.works s.calls ≡ false
      → db.works (s.calls + 1) ≡ true
      → (load_attachment_blob db key (save_attachment_blob db key blob s)).0 ≡ get s.database key
  unfolding load_attachment_blob save_attachment_blob
  load_attachment_blob_stale key blob s full there fails works =
      simp (full, there, fails, works) refl
