-- ===== src/Ingest/Tests.antt =====
-- Ingests of files on small stores.
use model_id.Base.{
  ◌≡◌, refl, ap, false, true, some, List, [], ◌∷◌, All, arith, list_eq, nat_eq, length,
}
use model_id.Base.Dict.{lookup}
use model_id.Base.Text.{Text, codes}
use model_id.Hash.{Blake3Hash}
use model_id.Sys.{World, file, fine, fails}
use model_id.Sys.Sample.{empty_db, store, world}
use model_id.Ingest.{ScannedFile, ingest_scan_results}
use model_id.Cas.{path_for_hash}
use model_id.Cas
use model_id.Ingest.Untouched.{IsApart, ingest_scan_results-Holds}

abbrev digest : Text → Blake3Hash
digest t = record { hex = codes "abcd" }

abbrev scanned : List ScannedFile
scanned =
    record {
      path = codes "a.bin" ∷ [];
      size = 7;
      hash = record { hex = codes "abcd" };
      from_cache = false;
      mtime = 1;
      inode = 2;
      device_id = 3;
    }
    ∷ record {
      path = codes "gone.bin" ∷ [];
      size = 7;
      hash = record { hex = codes "abcd" };
      from_cache = true;
      mtime = 1;
      inode = 4;
      device_id = 3;
    }
    ∷ []

abbrev one_there : World
one_there =
    world ((codes "a.bin" ∷ [], file (codes "weights")) ∷ []) empty_db (fine ∷ fine ∷ fails ∷ [])

scanned-IsApart : All (IsApart store (codes "s1") (codes "a.bin" ∷ [])) scanned
unfolding path_for_hash
scanned-IsApart = (
  (λ e. omega (arith, ap length e), λ e. omega (arith, ap length e)),
  ((λ e. omega (arith, ap length e), λ e. omega (arith, ap length e)), tt),
)

ingest_scan_results-Holds_example :
    lookup
      (codes "a.bin" ∷ [])
      (ingest_scan_results digest store (codes "s1") scanned one_there).1.fs
    ≡ some (file (codes "weights"))
unfolding lookup list_eq nat_eq
ingest_scan_results-Holds_example =
    ingest_scan_results-Holds digest store (codes "s1") scanned (codes "a.bin" ∷ [])
      (codes "weights") one_there scanned-IsApart refl

abbrev long_hash : Blake3Hash
long_hash = record {
  hex = codes "0123456789abcdef0123456789abcdef0123456789abcdef0123456789abcdef";
}

abbrev fresh : ScannedFile
fresh = record {
  path = codes "a.bin" ∷ [];
  size = 7;
  hash = long_hash;
  from_cache = false;
  mtime = 1;
  inode = 2;
  device_id = 3;
}

abbrev fresh_world : World
fresh_world = world ((fresh.path, file (codes "weights")) ∷ []) empty_db []
