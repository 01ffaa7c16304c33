-- ===== src/Sys/Tables.antt =====
-- Calls of the database from an action, each of which may fail.
use model_id.Base.Results.{Result, ok, err}
use model_id.Db.{Database}
use model_id.Sys.{Outcome, World, M, call}

abbrev unchanged : Outcome → World → World
unchanged o w = w

abbrev pub attempted : {A : Type 0} → Result (A × Database) → World → Result A × World
attempted (ok (a, db)) w = (ok a, record w { db = db })
attempted (err e) w = (err e, w)

unfoldable pub query {ℓ} : {A : Type ℓ} → (Database → A) → M A
query f = call (λ w. (ok (f w.db), w)) unchanged

-- A statement that violates no clause of the schema.
unfoldable pub execute : (Database → Database) → M (Unit {0})
execute f = call (λ w. (ok tt, record w { db = f w.db })) unchanged

-- A statement that a clause of the schema may refuse; a refused one changes nothing.
unfoldable pub attempt : {A : Type 0} → (Database → Result (A × Database)) → M A
attempt f = call (λ w. attempted (f w.db) w) unchanged
