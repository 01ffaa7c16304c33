-- ===== src/Db.antt =====
-- crates/modeld-core/src/db.rs: the rows of the tables and the database. The SQL of each method is
-- a function on these lists, with the UNIQUE and FOREIGN KEY clauses of the schema. A time stamp is
-- a number (nanoseconds since 1970), where the tables hold its RFC 3339 text.
pub mod Table
pub mod Order
pub mod Enums
pub mod Models
pub mod Aliases
pub mod Workflows
pub mod Counts
pub mod Wal
pub mod Groups
pub mod Lexical
pub mod Tags
pub mod PathIndex
pub mod Upsert
pub mod Integrity
mod Tests
use model_id.Base.{ℕ, Bool, Option, List}
use model_id.Base.Text.{Text}
use model_id.Hash.{Blake3Hash}
use model_id.Db.Enums.{AliasType, Frontend, TransactionStatus, ScanStatus}

pub record Model : Type 0 where
  pub id : ℕ
  pub blake3_hash : Blake3Hash
  pub size_bytes : ℕ
  pub format : Option Text
  pub arch : Option Text
  pub category : Option Text
  pub base_model : Option Text
  pub created_at : ℕ
  pub last_seen : ℕ
  pub quarantined_at : Option ℕ
  pub note : Option Text
  pub pinned : Bool
  pub favorited : Bool
  pub source_type : Option Text
  pub hf_repo_id : Option Text
  pub revision : Option Text
  pub download_url : Option Text
  pub license : Option Text
  pub downloaded_by : Option Text
  pub downloaded_at : Option ℕ
  pub original_filename : Option Text
  pub model_card_url : Option Text

-- The column `path` holds a path by its components.
pub record Alias : Type 0 where
  pub id : ℕ
  pub model_hash : Blake3Hash
  pub path : List Text
  pub frontend : Frontend
  pub alias_type : AliasType
  pub created_at : ℕ

pub record WalTransaction : Type 0 where
  pub id : ℕ
  pub tx_id : Text
  pub operation : Text
  pub status : TransactionStatus
  pub source_path : Option Text
  pub target_hash : Option Text
  pub metadata : Option Text
  pub created_at : ℕ
  pub updated_at : ℕ
  pub op_type : Option Text
  pub affected_paths : Option Text
  pub rollback_plan : Option Text
  pub end_time : Option ℕ
  pub error_message : Option Text

pub record WorkflowRecord : Type 0 where
  pub id : ℕ
  pub path : Text
  pub file_hash : Option Text
  pub title : Option Text
  pub parsed_at : ℕ
  pub last_seen_at : ℕ
  pub ref_count : ℕ

pub record WorkflowRef : Type 0 where
  pub id : ℕ
  pub workflow_id : ℕ
  pub model_hash : Option Blake3Hash
  pub ref_type : Text
  pub model_name : Text
  pub model_path : Option Text
  pub resolved : Bool

pub record Tag : Type 0 where
  pub model_hash : Blake3Hash
  pub tag : Text

-- A row of `path_index`, which holds a path by its components too.
pub record PathIndexRow : Type 0 where
  pub path : List Text
  pub hash : Blake3Hash
  pub size : ℕ
  pub mtime : ℕ
  pub inode : ℕ
  pub device_id : ℕ
  pub last_seen : ℕ
  pub scan_status : ScanStatus

-- The tables, the highest id that each AUTOINCREMENT has given out, and the connection's
-- `last_insert_rowid`.
pub record Database : Type 0 where
  pub models : List Model
  pub aliases : List Alias
  pub wal_transactions : List WalTransaction
  pub workflows : List WorkflowRecord
  pub workflow_refs : List WorkflowRef
  pub tags : List Tag
  pub path_index : List PathIndexRow
  pub model_seq : ℕ
  pub alias_seq : ℕ
  pub wal_seq : ℕ
  pub workflow_seq : ℕ
  pub workflow_ref_seq : ℕ
  pub last_insert_rowid : ℕ
