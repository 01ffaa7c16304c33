-- ===== src/Scanner/Walks.antt =====
-- A scan over a walk of three entries.
use model_id.Base.{◌≡◌, Bool, true, false, Option, none, some, List, [], ◌∷◌, All}
use model_id.Base.Text.{codes}
use model_id.Hash.{Blake3Hash}
use model_id.Sys.{World, file}
use model_id.Sys.Returns.{Returns}
use model_id.Sys.Sample.{empty_db, world}
use model_id.Scanner.Scan
use model_id.Scanner.Scan.{Entry, DirId, FileScanner, with_preindexed}

-- A walk that asks the filter for each of three entries.
abbrev entries : List Entry
entries =
    record { path = codes "m" ∷ []; is_dir = true; metadata = none }
    ∷ record {
      path = codes "m" ∷ codes "a.pt" ∷ [];
      is_dir = false;
      metadata = some (record { len = 7; modified = some 5; ino = 1; dev = 1 });
    }
    ∷ record {
      path = codes "venv" ∷ codes "b.pt" ∷ [];
      is_dir = false;
      metadata = some (record { len = 3; modified = some 5; ino = 2; dev = 1 });
    }
    ∷ []

abbrev put : Bool → Entry → List (Option Entry) → List (Option Entry)
put true e rest = some e ∷ rest
put false e rest = rest

sift : (List DirId → Entry → Bool × List DirId) → List Entry → List DirId → List (Option Entry)
sift filter [] visited = []
sift filter (e ∷ es) visited = put (filter visited e).0 e (sift filter es (filter visited e).1)

abbrev walk : (List DirId → Entry → Bool × List DirId) → List (Option Entry)
walk filter = sift filter entries []

abbrev Let : (Entry → Bool) → List (Option Entry) → Type 0
Let p = All (λ (o : Option Entry). elim o [ none ↦ true | some x ↦ p x ] ≡ true)

abbrev hash : Blake3Hash
hash = record { hex = codes "abcd" }

-- The cache has the hash of the one file that is selected.
abbrev scanner : FileScanner
scanner =
    with_preindexed
      ((
        codes "m" ∷ codes "a.pt" ∷ [],
        record { hash = hash; size = 7; mtime = 5; inode = 1; device_id = 1 },
      )
        ∷ [])
      Scan.new

abbrev one_file : World
one_file = world ((codes "m" ∷ codes "a.pt" ∷ [], file (codes "weights")) ∷ []) empty_db []
