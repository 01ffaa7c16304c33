-- ===== src/Sys/Sample.antt =====
-- Small worlds for the tests.
use model_id.Base.{List, [], ◌∷◌}
use model_id.Base.Text.{codes}
use model_id.Db.{Database}
use model_id.Sys.{FilePath, Fs, Outcome, World}

abbrev pub empty_db : Database
empty_db = record {
  models = [];
  aliases = [];
  wal_transactions = [];
  workflows = [];
  workflow_refs = [];
  tags = [];
  path_index = [];
  model_seq = 0;
  alias_seq = 0;
  wal_seq = 0;
  workflow_seq = 0;
  workflow_ref_seq = 0;
  last_insert_rowid = 0;
}

abbrev pub store : FilePath
store = codes "store" ∷ []

abbrev pub world : Fs → Database → List Outcome → World
world fs db faults = record { fs = fs; db = db; clock = 5000000000; ticks = []; faults = faults }
