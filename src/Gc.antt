-- ===== src/Gc.antt =====
-- crates/modeld-core/src/gc.rs: which models the collector may take, and the run that takes them; and
-- crates/modeld-core/src/refs.rs, which explains why a model stays.
pub mod Agree
pub mod Safe
mod Tests
use mathlib.Core.Bool.{not}
use model_id.Base.{
  ℕ, ◌+◌, ◌*◌, ◌%◌, ◌^◌, ◌≡◌, Bool, true, false, ◌&&◌, Option, none, some, List, [], ◌∷◌, ◌++◌, map,
  select, find, take, length, ltb, leb, if◌then◌else◌, list_eq, nat_eq, ◌==◌,
}
use model_id.Base.Text.{Text, codes}
use model_id.Base.Decimal.{show}
use model_id.Base.Results.{Result, ok, err, Error, db_error}
use model_id.Hash.{Blake3Hash, as_hex}
use model_id.Db.{Database, Model}
use model_id.Db.Counts.{GcRow, get_gc_candidate_counts}
use model_id.Db.Models.{quarantine_model}
use model_id.Db.Aliases.{delete_aliases_for_model}
use model_id.Sys.{FilePath, World, M, pure, throw, gets, try, now, call, ◌>>=◌, ◌>>◌}
use model_id.Sys.Files.{is_some}
use model_id.Sys.Tables.{query, execute}
use model_id.Cas.{CasStore, contains, get}
use model_id.Quarantine.{QuarantineManager, QuarantineEntry, Serde, is_expired}
use model_id.Quarantine
use model_id.Cas

pub data RefStatus : Type 0 where
  hard_reference : RefStatus
  soft_reference : RefStatus
  pinned : RefStatus
  recently_used : RefStatus
  unknown : RefStatus
  orphan_candidate : RefStatus

abbrev is_row : Blake3Hash → GcRow → Bool
is_row hash row = as_hex row.model.blake3_hash == as_hex hash

-- The tests that `classify_refs` and `candidates` both write out.
unfoldable pub ref_status : Bool → ℕ → ℕ → RefStatus
ref_status pin workflow_ref_count alias_count =
    if pin
    then pinned
    else if ltb 0 workflow_ref_count
    then hard_reference
    else if ltb 0 alias_count
    then soft_reference
    else orphan_candidate

abbrev pub is_orphan : RefStatus → Bool
is_orphan orphan_candidate = true
is_orphan _ = false

abbrev classify_row : Option GcRow → RefStatus
classify_row none = unknown
classify_row (some row) = ref_status row.model.pinned row.workflow_ref_count row.alias_count

-- `classify_refs`, with what the query returned.
unfoldable pub classify_refs : Result (List GcRow) → Blake3Hash → RefStatus
classify_refs (err e) hash = unknown
classify_refs (ok rows) hash = classify_row (find (is_row hash) rows)

abbrev reason : Bool → Text → List Text
reason b text = if b then text ∷ [] else []

abbrev reasons_of : Option GcRow → List Text
reasons_of none = codes "model not found in database" ∷ []
reasons_of (some row) =
    reason row.model.pinned (codes "pinned by user")
    ++ reason (ltb 0 row.workflow_ref_count)
        (codes "referenced by " ++ show row.workflow_ref_count ++ codes " workflow file(s)")
    ++ reason (ltb 0 row.alias_count)
        (codes "has " ++ show row.alias_count ++ codes " alias(es) on disk")

-- refs.rs, with the database's rows
unfoldable pub explain_refs : Database → Blake3Hash → List Text
explain_refs db hash = reasons_of (find (is_row hash) (get_gc_candidate_counts db))

abbrev pub is_free : GcRow → Bool
is_free row = not row.model.pinned && row.workflow_ref_count == 0 && row.alias_count == 0

unfoldable pub list_orphans : Database → List Blake3Hash
list_orphans db =
    map (λ (row : GcRow). row.model.blake3_hash) (select is_free (get_gc_candidate_counts db))

pub record GcCandidate : Type 0 where
  pub model : Model
  pub workflow_ref_count : ℕ
  pub alias_count : ℕ
  pub cas_file_exists : Bool
  pub savings_bytes : ℕ
  pub status : RefStatus

pub record GcResult : Type 0 where
  pub quarantined : List Text
  pub skipped_protected : List Text
  pub skipped_soft : List Text
  pub bytes_recovered : ℕ
  pub cleaned_quarantine : ℕ

pub record GcPreviewItem : Type 0 where
  pub hash_prefix : Text
  pub name : Option Text
  pub size_bytes : ℕ
  pub alias_count : ℕ

pub record GcPreview : Type 0 where
  pub hard_protected : List Text
  pub soft_protected : List GcPreviewItem
  pub would_quarantine : List GcPreviewItem
  pub total_reclaimable_bytes : ℕ
  pub expired_quarantine_count : ℕ
  pub expired_quarantine_bytes : ℕ

pub record GcEngine : Type 0 where
  pub cas : CasStore
  pub quarantine : QuarantineManager

abbrev pub new : FilePath → GcEngine
new store_path = record { cas = Cas.new store_path; quarantine = Quarantine.new store_path }

abbrev pub candidate_of : CasStore → World → GcRow → GcCandidate
candidate_of cas w row = record {
  model = row.model;
  workflow_ref_count = row.workflow_ref_count;
  alias_count = row.alias_count;
  cas_file_exists = contains cas row.model.blake3_hash w;
  savings_bytes = row.model.size_bytes;
  status = ref_status row.model.pinned row.workflow_ref_count row.alias_count;
}

unfoldable pub candidates : GcEngine → M (List GcCandidate)
candidates gc = do
  rows ← query get_gc_candidate_counts
  gets (λ w. map (candidate_of gc.cas w) rows)

-- `&as_hex()[..16]`
abbrev pub hash_prefix_of : Blake3Hash → Text
hash_prefix_of hash = take 16 (as_hex hash)

abbrev item_of : GcCandidate → ℕ → GcPreviewItem
item_of c alias_count = record {
  hash_prefix = hash_prefix_of c.model.blake3_hash;
  name = c.model.format;
  size_bytes = c.model.size_bytes;
  alias_count = alias_count;
}

-- A sum in an i64, as the residue of its two's complement; it wraps around.
abbrev pub i64 : ℕ → ℕ
i64 n = n % 2 ^ 64

abbrev pub preview_status : RefStatus → GcCandidate → GcPreview → GcPreview
preview_status hard_reference c p = record p {
  hard_protected = p.hard_protected ++ hash_prefix_of c.model.blake3_hash ∷ [];
}
preview_status soft_reference c p = record p {
  soft_protected = p.soft_protected ++ item_of c c.alias_count ∷ [];
}
preview_status orphan_candidate c p = record p {
  would_quarantine = p.would_quarantine ++ item_of c 0 ∷ [];
  total_reclaimable_bytes = i64 (p.total_reclaimable_bytes + c.model.size_bytes);
}
preview_status _ c p = p

-- The loop of `preview`.
unfoldable pub preview_all : List GcCandidate → GcPreview → GcPreview
preview_all [] p = p
preview_all (c ∷ cs) p = preview_all cs (preview_status c.status c p)

abbrev no_preview : GcPreview
no_preview = record {
  hard_protected = [];
  soft_protected = [];
  would_quarantine = [];
  total_reclaimable_bytes = 0;
  expired_quarantine_count = 0;
  expired_quarantine_bytes = 0;
}

abbrev entries_of : Result (List QuarantineEntry) → List QuarantineEntry
entries_of (ok es) = es
entries_of (err e) = []

total_size : List QuarantineEntry → ℕ
total_size [] = 0
total_size (e ∷ es) = e.meta.size_bytes + total_size es

unfoldable pub preview : Serde → GcEngine → M GcPreview
unfolding candidates preview_all total_size
preview json gc = do
  cs ← candidates gc
  listed ← try (Quarantine.list json gc.quarantine)
  let expired = select (is_expired json gc.quarantine) (entries_of listed)
  pure (record (preview_all cs no_preview) {
    expired_quarantine_count = length expired;
    expired_quarantine_bytes = i64 (total_size expired);
  })

abbrev gc_reason : Text
gc_reason = codes "gc: no workflow refs, no aliases"

-- What is added to the result for a file that was moved.
abbrev add_quarantined : GcCandidate → GcResult → GcResult
add_quarantined c r = record r {
  quarantined = r.quarantined ++ hash_prefix_of c.model.blake3_hash ∷ [];
  bytes_recovered = i64 (r.bytes_recovered + c.model.size_bytes);
}

-- The write-back to the database, whose errors are printed only.
abbrev write_back : Blake3Hash → M (Unit {0})
write_back hash = do
  at ← now
  try (execute (quarantine_model hash at))
  try (execute (λ db. (delete_aliases_for_model hash db).1))
  pure tt

abbrev pub after_quarantine : GcCandidate → GcResult → Result FilePath → M GcResult
after_quarantine c r (err e) = pure r
after_quarantine c r (ok path) = do write_back c.model.blake3_hash; pure (add_quarantined c r)

module _ (json : Serde) (gc : GcEngine) where
  -- What stands under `if let Some(cas_path)`.
  unfoldable pub quarantine_at : GcCandidate → GcResult → Option FilePath → M GcResult
  quarantine_at c r none = pure r
  quarantine_at c r (some cas_path) = do
    Quarantine.init json gc.quarantine
    moved ← try (
        Quarantine.quarantine json gc.quarantine cas_path (as_hex c.model.blake3_hash) gc_reason [])
    after_quarantine c r moved

  abbrev pub run_status : RefStatus → GcCandidate → GcResult → M GcResult
  run_status hard_reference c r = pure (record r {
    skipped_protected = r.skipped_protected ++ hash_prefix_of c.model.blake3_hash ∷ [];
  })
  run_status soft_reference c r =
      pure (record r { skipped_soft = r.skipped_soft ++ hash_prefix_of c.model.blake3_hash ∷ [] })
  run_status orphan_candidate c r =
      if c.cas_file_exists
      then (do found ← gets (get gc.cas c.model.blake3_hash); quarantine_at c r found)
      else pure r
  run_status _ c r = pure (record r {
    skipped_protected = r.skipped_protected ++ hash_prefix_of c.model.blake3_hash ∷ [];
  })

  -- The loop of `run_safe`.
  unfoldable pub run_all : List GcCandidate → GcResult → M GcResult
  run_all [] r = pure r
  run_all (c ∷ cs) r = do r' ← run_status c.status c r; run_all cs r'

  abbrev no_result : GcResult
  no_result = record {
    quarantined = [];
    skipped_protected = [];
    skipped_soft = [];
    bytes_recovered = 0;
    cleaned_quarantine = 0;
  }

  unfoldable pub run_safe : M GcResult
  unfolding candidates run_all quarantine_at
  run_safe = do
    cs ← candidates gc
    r ← run_all cs no_result
    cleaned ← Quarantine.cleanup_expired json gc.quarantine
    pure (record r { cleaned_quarantine = cleaned })

  unfoldable pub cleanup_quarantine : M ℕ
  cleanup_quarantine = Quarantine.cleanup_expired json gc.quarantine
