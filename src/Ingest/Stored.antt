-- ===== src/Ingest/Stored.antt =====
-- What a file has in the store and the database once crates/modeld-core/src/ingest.rs has processed
-- it.
use model_id.Base.{list_eq, nat_eq}
use model_id.Base.Text.{Text}
use model_id.Db.PathIndex.{FileIndexEntry}
use model_id.Cas
use model_id.Ingest.{ScannedFile}

-- What the index of paths says of a file.
abbrev pub entry_for : ScannedFile → FileIndexEntry
entry_for f = record {
  hash = f.hash;
  size = f.size;
  mtime = f.mtime;
  inode = f.inode;
  device_id = f.device_id;
}
