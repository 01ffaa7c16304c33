-- ===== src/Dedup/Linking.antt =====
-- How `execute_dedup_group` of crates/modeld-core/src/dedup.rs replaces the files of a group by links
-- to their object, on Unix.
use model_id.Base.{
  ℕ, ◌+◌, ◌%◌, ◌^◌, Bool, true, false, Option, none, some, List, [], ◌∷◌, ◌++◌, if◌then◌else◌,
  list_eq, nat_eq, ◌==◌,
}
use model_id.Base.Text.{Text, codes}
use model_id.Hash.{Blake3Hash, as_hex, prefix}
use model_id.Db.{Alias}
use model_id.Db.Enums.{AliasType, hardlink, symlink, junction, reference_only, original, user}
use model_id.Db.Aliases.{get_alias_by_path, insert_alias, delete_alias}
use model_id.Tx.{commit}
use model_id.Links.{LinkResult, success, failed, LinkCapability, create_link}
use model_id.Platform.{check_file_locked, is_same_volume}
use model_id.Dedup.{
  DedupEngine, DedupStrategy, DuplicateGroup, CanonicalSelection, path_text, select_canonical,
  effective_strategy,
}
use model_id.Dedup
use model_id.Sys.{FilePath, M, pure, try, now, ◌>>=◌, ◌>>◌}
use model_id.Sys.Files.{join}
use model_id.Sys.Tables.{query, execute, attempt}

pub record LinkCreated : Type 0 where
  pub path : FilePath
  pub alias_type : AliasType

pub record DedupGroupResult : Type 0 where
  pub hash : Blake3Hash
  pub canonical : FilePath
  pub links_created : List LinkCreated
  pub space_saved : ℕ
  pub locked_files : List FilePath

-- The type that an alias gets.
abbrev pub type_of : LinkResult → AliasType
type_of (success t) = t
type_of failed = reference_only

-- Whether disk space was given back.
abbrev pub saves : AliasType → Bool
saves hardlink = true
saves symlink = true
saves junction = true
saves reference_only = false
saves original = false

abbrev pub add_link : DuplicateGroup → FilePath → AliasType → DedupGroupResult → DedupGroupResult
add_link group path t r = record r {
  links_created = r.links_created ++ record { path = path; alias_type = t } ∷ [];
  space_saved = if saves t then (r.space_saved + group.total_size) % 2 ^ 64 else r.space_saved;
}

abbrev pub add_locked : FilePath → DedupGroupResult → DedupGroupResult
add_locked path r = record r { locked_files = r.locked_files ++ path ∷ [] }

-- The alias of the path is replaced.
abbrev pub put_alias : Blake3Hash → FilePath → AliasType → M (Unit {0})
put_alias hash path t = do
  try (execute (delete_alias path))
  at ← now
  attempt (insert_alias at hash path user t)
  pure tt

abbrev pub replaces : LinkResult → Option AliasType
replaces failed = none
replaces (success reference_only) = none
replaces (success hardlink) = some hardlink
replaces (success symlink) = some symlink
replaces (success junction) = some junction
replaces (success original) = some original

abbrev pub add_original : Blake3Hash → FilePath → Option Alias → M (Unit {0})
add_original hash canonical (some a) = pure tt
add_original hash canonical none = do
  at ← now
  attempt (insert_alias at hash canonical user original)
  pure tt

abbrev pub across : Bool → DedupStrategy
across true = Dedup.hardlink
across false = Dedup.copy_to_cas

abbrev pub no_links : DuplicateGroup → CanonicalSelection → DedupGroupResult
no_links group s = record {
  hash = group.hash;
  canonical = s.canonical;
  links_created = [];
  space_saved = 0;
  locked_files = [];
}

module _ (e : DedupEngine) where
  abbrev pub cas_path_for_hash : Blake3Hash → FilePath
  cas_path_for_hash hash =
      join (join (join (join e.store_path (codes "cas")) (codes "blake3")) (prefix hash))
        (as_hex hash)

  module _ (blake3 : Text → Blake3Hash) (device : FilePath → ℕ)
      (canonicalize : FilePath → Option FilePath) (capability : LinkCapability) where
    abbrev pub resolve : DedupStrategy → FilePath → FilePath → M DedupStrategy
    resolve Dedup.hardlink source target = do
      same ← is_same_volume device canonicalize source target
      pure (across same)
    resolve Dedup.symlink source target = pure Dedup.symlink
    resolve Dedup.copy_to_cas source target = pure Dedup.copy_to_cas
    resolve Dedup.virtual_alias source target = pure Dedup.virtual_alias

    abbrev pub resolve_strategy_for_path : FilePath → FilePath → M DedupStrategy
    resolve_strategy_for_path = resolve (effective_strategy blake3 e)

    abbrev pub link_by : DedupStrategy → FilePath → FilePath → M LinkResult
    link_by Dedup.virtual_alias path cas_path = pure (success reference_only)
    link_by Dedup.copy_to_cas path cas_path = pure (success reference_only)
    link_by Dedup.hardlink path cas_path = create_link device path cas_path capability
    link_by Dedup.symlink path cas_path = create_link device path cas_path capability

    -- One duplicate.
    abbrev pub link_duplicate : DuplicateGroup → FilePath → DedupGroupResult → M DedupGroupResult
    link_duplicate group path r = if check_file_locked path then pure (add_locked path r) else do
      strategy ← resolve_strategy_for_path path (cas_path_for_hash group.hash)
      link_result ← link_by strategy path (cas_path_for_hash group.hash)
      put_alias group.hash path (type_of link_result)
      pure (add_link group path (type_of link_result) r)

    unfoldable pub link_duplicates :
        DuplicateGroup → List FilePath → DedupGroupResult → M DedupGroupResult
    unfolding is_same_volume create_link
    link_duplicates group [] r = pure r
    link_duplicates group (p ∷ ps) r = do r' ← link_duplicate group p r; link_duplicates group ps r'

    abbrev pub keep_or_link :
        DuplicateGroup → FilePath → DedupGroupResult → Option AliasType → M DedupGroupResult
    keep_or_link group canonical r none = pure r
    keep_or_link group canonical r (some t) = do
      put_alias group.hash canonical t
      pure (record (add_link group canonical t r) {
        space_saved = (r.space_saved + group.total_size) % 2 ^ 64;
      })

    unfoldable pub link_canonical :
        DuplicateGroup → FilePath → DedupGroupResult → M DedupGroupResult
    unfolding create_link
    link_canonical group canonical r =
        if canonical == cas_path_for_hash group.hash
        then pure r
        else if check_file_locked canonical
        then pure (add_locked canonical r)
        else do
          link ← create_link device canonical (cas_path_for_hash group.hash) capability
          keep_or_link group canonical r (replaces link)

    -- The links, once the object is in its place.
    abbrev pub link_group : Text → DuplicateGroup → CanonicalSelection → M DedupGroupResult
    link_group tx_id group s = do
      known ← query (get_alias_by_path s.canonical)
      add_original group.hash s.canonical known
      r ← link_duplicates group s.duplicates (no_links group s)
      r' ← link_canonical group s.canonical r
      commit tx_id
      pure r'
