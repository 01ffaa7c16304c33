-- ===== src/Base/Results.antt =====
-- `anyhow::Result`: a value, or an error by its kind. The texts of error messages are left out.
use model_id.Base.{ℕ}

pub data Error : Type 0 where
  -- `Blake3Hash::from_hex`
  hash_length : ℕ → Error
  hash_characters : Error
  -- a call of the operating system failed
  io_error : Error
  -- a call of the database failed
  db_error : Error
  -- a CHECK, UNIQUE or FOREIGN KEY clause of the schema was violated
  check_violation : Error
  unique_violation : Error
  foreign_key_violation : Error
  -- text that serde_json could not read
  parse_error : Error
  -- a row, file or record that the operation needs is missing
  not_found : Error
  no_metadata : Error
  -- the target of a restore is taken
  occupied : Error
  -- a number that its type cannot hold
  out_of_range : Error
  size_mismatch : Error
  hash_mismatch : Error
  -- the file is independent already
  already_original : Error
  -- an assertion failed: the program panics
  panic : Error

pub data Result {ℓ} (A : Type ℓ) : Type ℓ where
  ok : A → Result A
  err : Error → Result A
