-- ===== src/Cas.antt =====
-- crates/modeld-core/src/cas.rs: the content-addressed store. BLAKE3 itself is the blake3 package's, a
-- parameter; permissions have no content here, so setting them is a call that may fail.
pub mod Paths
pub mod Stored
mod Tests
use model_id.Base.{
  ℕ, zero, suc, ◌+◌, ◌-◌, ◌/◌, ◌%◌, ltb, ◌≡◌, Bool, true, false, not, Option, none, some, List, [],
  ◌∷◌, ◌++◌, if◌then◌else◌, list_eq, nat_eq, ◌==◌, length,
}
use model_id.Base.Text.{Text, codes}
use model_id.Base.Results.{Result, ok, err, Error, size_mismatch, hash_mismatch}
use model_id.Hash.{Blake3Hash, as_hex, prefix}
use model_id.Sys.{FilePath, World, M, pure, throw, gets, try, ◌>>=◌, ◌>>◌}
use model_id.Sys.Files.{
  join, parent, exists, create_dir_all, metadata_len, read_to_string, write, copy, rename,
  remove_file,
}

pub record CasStore : Type 0 where
  pub root : FilePath

abbrev pub new : FilePath → CasStore
new root = record { root = root }

abbrev hex_digit : ℕ → ℕ
hex_digit d = if ltb d 10 then b'0' + d else b'a' + (d - 10)

-- `{:02x}` of a byte
abbrev pub two_digits : ℕ → Text
two_digits n = hex_digit (n / 16) ∷ hex_digit (n % 16) ∷ []

abbrev pub failed {ℓ} : {A : Type ℓ} → Result A → Bool
failed (ok a) = false
failed (err e) = true

abbrev pub make_parent : Option FilePath → M (Unit {0})
make_parent none = pure tt
make_parent (some p) = create_dir_all p

-- `fsync` of a directory and `make_readonly` change no content and may fail.
abbrev pub touch : FilePath → M (Unit {0})
touch path = do metadata_len path; pure tt

abbrev pub make_touch : Option FilePath → M (Unit {0})
make_touch none = pure tt
make_touch (some p) = touch p

module _ (cas : CasStore) where
  abbrev pub cas_root : FilePath
  cas_root = join (join cas.root (codes "cas")) (codes "blake3")

  -- The loop over the prefixes from `n` down to 1 less than 256, with the directories still to make.
  make_prefix_dirs : ℕ → M (Unit {0})
  make_prefix_dirs zero = pure tt
  make_prefix_dirs (suc n) =
      let rest = make_prefix_dirs n in
      (do create_dir_all (join cas_root (two_digits (255 - n))); rest)

  unfoldable pub init : M (Unit {0})
  unfolding make_prefix_dirs
  init = do create_dir_all cas_root; make_prefix_dirs 256

  unfoldable pub path_for_hash : Blake3Hash → FilePath
  path_for_hash hash = join (join cas_root (prefix hash)) (as_hex hash)

  abbrev pub contains : Blake3Hash → World → Bool
  contains hash w = exists (path_for_hash hash) w

  unfoldable pub store : FilePath → Blake3Hash → M FilePath
  store source hash = do
    there ← gets (contains hash)
    if there then pure (path_for_hash hash) else do
      make_parent (parent (path_for_hash hash))
      copy source (path_for_hash hash)
      touch (path_for_hash hash)
      pure (path_for_hash hash)

  abbrev pub get : Blake3Hash → World → Option FilePath
  get hash w = if contains hash w then some (path_for_hash hash) else none

  abbrev pub staging_dir : Text → FilePath
  staging_dir tx_id = join (join (join cas.root (codes "tmp")) (codes "cas_staging")) tx_id

  abbrev pub staging_path : Blake3Hash → Text → FilePath
  staging_path expected tx_id = join (staging_dir tx_id) (as_hex expected ++ codes ".part")

  -- An object that is there is taken if its size is that of the source.
  abbrev pub reuse : FilePath → FilePath → M FilePath
  reuse dest source = do
    disk_size ← metadata_len dest
    src_size ← metadata_len source
    if disk_size == src_size then pure dest else throw size_mismatch

  -- The rename, with a copy in its place where it fails.
  abbrev pub move_object : FilePath → FilePath → Result (Unit {0}) → M (Unit {0})
  move_object staging dest (ok u) = pure tt
  move_object staging dest (err e) = do copy staging dest; try (remove_file staging); pure tt

  -- Step 6.
  abbrev pub promote : FilePath → FilePath → M (Unit {0})
  promote staging dest = do renamed ← try (rename staging dest); move_object staging dest renamed

  -- Steps 5 to 8.
  abbrev pub publish : FilePath → FilePath → M FilePath
  publish staging dest = do
    make_parent (parent dest)
    promote staging dest
    make_touch (parent dest)
    touch dest
    pure dest

  -- Step 4, and what follows it.
  abbrev pub checked : FilePath → FilePath → Bool → Error → M FilePath → M FilePath
  checked staging dest agrees e next =
      if agrees then next else do try (remove_file staging); throw e

  -- An object that is not there. What a read that fails leaves of the staging file is what a write
  -- that breaks off leaves.
  abbrev pub stage : (Text → Blake3Hash) → FilePath → Blake3Hash → Text → M FilePath
  stage blake3 source expected tx_id = do
    create_dir_all (staging_dir tx_id)
    src_size ← metadata_len source
    content ← read_to_string source
    write (staging_path expected tx_id) content
    checked (staging_path expected tx_id) (path_for_hash expected) (length content == src_size)
        size_mismatch
        (checked (staging_path expected tx_id) (path_for_hash expected)
          (as_hex (blake3 content) == as_hex expected) hash_mismatch
          (publish (staging_path expected tx_id) (path_for_hash expected)))

  unfoldable pub store_crash_safe : (Text → Blake3Hash) → FilePath → Blake3Hash → Text → M FilePath
  unfolding path_for_hash
  store_crash_safe blake3 source expected tx_id = do
    there ← gets (contains expected)
    if there then reuse (path_for_hash expected) source else stage blake3 source expected tx_id
