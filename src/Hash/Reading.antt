-- ===== src/Hash/Reading.antt =====
-- `hash_file` of crates/modeld-core/src/hash.rs. The digest of a text is the blake3 package's, a
-- parameter; it does not depend on the pieces in which the content is handed over, nor on threads.
use model_id.Base.{ltb, if◌then◌else◌}
use model_id.Base.Text.{Text}
use model_id.Hash.{Blake3Hash}
use model_id.Sys.{FilePath, M, pure, ◌>>=◌}
use model_id.Sys.Files.{metadata_len, read_to_string}

module _ (blake3 : Text → Blake3Hash) where
  abbrev pub hash_file_small : FilePath → M Blake3Hash
  hash_file_small path = do content ← read_to_string path; pure (blake3 content)

  abbrev pub hash_file_large : FilePath → M Blake3Hash
  hash_file_large path = do content ← read_to_string path; pure (blake3 content)

  unfoldable pub hash_file : FilePath → M Blake3Hash
  hash_file path = do
    size ← metadata_len path
    if ltb size 10485760 then hash_file_small path else hash_file_large path
