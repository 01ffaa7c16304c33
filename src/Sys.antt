-- ===== src/Sys.antt =====
-- What the code asks of the operating system, as state passing: files by their paths, the clock,
-- and an environment that decides which calls fail. A call of `std::fs` or of the database takes
-- the next outcome of `faults`; after the last one all calls succeed. So a theorem about every world
-- covers every choice of failing calls, whatever their cause (missing directories, permissions,
-- volumes, a full disk). Questions such as `exists` do not fail.

pub mod Paths
pub mod Files
pub mod Dirs
pub mod Keeps
pub mod Results
pub mod Tables
pub mod Sample
pub mod Apart
pub mod Returns
pub mod Runs
pub mod Walk
pub mod Links
use model_id.Base.{ℕ, ◌+◌, List, [], ◌∷◌, Option, none, some}
use model_id.Base.Text.{Text}
use model_id.Base.Dict.{Dict}
use model_id.Base.Results.{Result, ok, err, Error, io_error}
use model_id.Db.{Database}

-- A `PathBuf`, by its components.
abbrev pub FilePath : Type 0
FilePath = List Text

pub data Node : Type 0 where
  dir : Node
  file : Text → Node

abbrev pub Fs : Type 0
Fs = Dict FilePath Node

pub data Outcome : Type 0 where
  fine : Outcome
  fails : Outcome
  -- the call fails after it has written so many bytes
  torn : ℕ → Outcome

pub record World : Type 0 where
  pub fs : Fs
  pub db : Database
  pub clock : ℕ
  -- how far the clock goes on before each time it is read
  pub ticks : List ℕ
  pub faults : List Outcome

abbrev pub M {ℓ} : Type ℓ → Type ℓ
M A = World → Result A × World

module _ {ℓ} {A : Type ℓ} where
  pub pure : A → M A
  pure a w = (ok a, w)

  pub throw : Error → M A
  throw e w = (err e, w)

  pub lift : Result A → M A
  lift r w = (r, w)

  pub gets : (World → A) → M A
  gets f w = (ok (f w), w)

  -- `if let Err(e) = …`, `match …`, `.is_err()`: the result is looked at, and nothing is thrown.
  pub try : M A → M (Result A)
  try m w = let (r, w') = m w in (ok r, w')

module _ {ℓ κ} {A : Type ℓ} {B : Type κ} where
  abbrev pub continue : Result A → (A → World → Result B × World) → World → Result B × World
  continue (ok a) f w = f a w
  continue (err e) f w = (err e, w)

  infixl 5 ◌>>=◌ ◌>>◌
  unfoldable pub ◌>>=◌ :
      (World → Result A × World) → (A → World → Result B × World) → World → Result B × World
  unfolding pure throw lift gets try
  ◌>>=◌ m f w = let (r, w') = m w in continue r f w'

  abbrev pub ◌>>◌ :
      (World → Result A × World) → (World → Result B × World) → World → Result B × World
  m >> n = m >>= λ _. n

abbrev first_or {ℓ} : {A : Type ℓ} → A → List A → A
first_or d [] = d
first_or d (a ∷ rest) = a

abbrev rest_of {ℓ} : {A : Type ℓ} → List A → List A
rest_of [] = []
rest_of (a ∷ rest) = rest

abbrev pub on_outcome {ℓ} :
    {A : Type ℓ} → (World → Result A × World) → (Outcome → World → World) → Outcome → M A
on_outcome act partly fine w = act w
on_outcome act partly fails w = (err io_error, partly fails w)
on_outcome act partly (torn n) w = (err io_error, partly (torn n) w)

-- A call that may fail: what it does if it succeeds, and what it leaves behind if it fails.
unfoldable pub call {ℓ} :
    {A : Type ℓ} → (World → Result A × World) → (Outcome → World → World) → M A
call act partly w =
    on_outcome act partly (first_or fine w.faults) (record w { faults = rest_of w.faults })

-- `Utc::now()`
unfoldable pub now : M ℕ
now w =
    let t = w.clock + first_or 0 w.ticks in (ok t, record w { clock = t; ticks = rest_of w.ticks })
