-- ===== src/Lib.antt =====
-- modeld: a content-addressed store of model files, with a database of the files that refer to it, a
-- collector, a quarantine and a proxy on the local network.
--
-- The parts and their files, with the code they follow:
-- * Base (Base/*): texts as lists of bytes, decimal numbers, options, results, dictionaries, and
--   the functions of Rust's library that the code calls (trim, split, parse).
-- * Hash (Hash/*): crates/modeld-core/src/hash.rs, `Blake3Hash`.
-- * Db (Db/*): crates/modeld-core/src/db.rs. The database is a record of tables, each a list of rows;
--   each method is a function of the same name, in Db/Models, Db/Aliases, Db/Workflows, Db/Wal,
--   Db/Tags, Db/PathIndex, Db/Groups and Db/Counts.
--   A violated clause of the schema is an error value. Db/Table has the statements on one table.
-- * Sys (Sys/*): the calls of the operating system as state passing. A `World` holds the files by
--   their paths, the database, the clock and the outcomes of the calls to come: each call of
--   `std::fs` or of the database takes the next outcome, succeeds, fails, or breaks off in the middle
--   of a write. A write needs the directory of its path, and `create_dir_all` is refused where a file
--   stands on the way. Sys/Keeps has the rules for what an action keeps whatever calls fail, Sys/Results the
--   rules for what it comes to when it returns and when it fails.
-- * Cas (Cas/*): crates/modeld-core/src/cas.rs, `CasStore`.
-- * Quarantine (Quarantine/*): crates/modeld-core/src/quarantine.rs, `QuarantineManager`.
-- * Gc (Gc/*): crates/modeld-core/src/gc.rs, `GcEngine`, and crates/modeld-core/src/refs.rs.
-- * Tx (Tx/*): crates/modeld-core/src/tx.rs, `TransactionManager`, over the log table in Db/Wal.
-- * Scanner (Scanner/*): crates/modeld-core/src/scanner.rs, the glob patterns and `Scanner`.
-- * Dedup (Dedup/*): crates/modeld-core/src/dedup.rs, `DedupEngine`: its plan, and the execution in
--   Dedup/Linking, Dedup/Execute and Dedup/Run, and the recovery in Dedup/Recover; the duplicate
--   groups of the database are in Db/Groups.
-- * Links (Links, Sys/Links): crates/modeld-core/src/links.rs on Unix. Platform has the two questions of
--   crates/modeld-core/src/platform.rs that deduplication asks.
-- * Governance (Governance/*): crates/modeld-core/src/governance.rs, over Db/Models and Db/Tags.
-- * Ingest (Ingest/*): crates/modeld-core/src/ingest.rs, which calls the store and the database.
-- * Unlink (Unlink/*): crates/modeld-core/src/unlink.rs, on Unix.
-- * Fsck (Fsck/*): crates/modeld-core/src/fsck.rs, the checks and the repair.
-- * Workflow (Workflow/*): crates/modeld-core/src/workflow.rs, from the parser to the rows of the
--   database, and `scan_workflow_refs` of crates/modeld-core/src/refs.rs.
-- * Proxy (Proxy/*): crates/modeld-proxy/src: config.rs, auth.rs, range.rs and server.rs.
--
-- How they interact: the collector reads the counts of the database, asks the store for the path of
-- an object, moves the object by the quarantine, and writes the database back. A transaction
-- writes its plan to the log before files are changed; rollback and recovery read the log and restore
-- or clean up files. Deduplication reads the groups of the database, filters their files by glob
-- patterns and chooses the file to keep; its execution puts that file into the store and links the files
-- of the group to the object. The index of a workflow writes the references that the
-- collector counts; a check compares the tables with the objects and a repair works by its report. The
-- proxy admits a request by the rules of its configuration and sends it to a handler.
--
-- Bounds and fuel: a u64 in a header or a rule is parsed with its limit; sizes and counts are
-- natural numbers, and their sums wrap at 2 ^ 64 where the code adds them in a u64 or an i64.
-- `show` runs on fuel `n + 1`, one round for each digit, which is enough since each round
-- divides by ten; `glob_matches` runs on fuel one more than the length of its pattern, which
-- each call makes shorter. The walks over directories (`collect_part_files`,
-- `remove_empty_dirs`, `find_workflow_files`) run on one more than the length of the longest
-- path, as each level makes the path longer by one. All other loops follow a list or a number.
--
-- Parameters: serde_json on the quarantine's metadata and on transaction plans is a record
-- `Serde`, with the law that what was written is read back, and the quarantine's also has
-- `to_string_lossy`, which keeps a path that is UTF-8; serde_json's reader of a workflow,
-- Unicode's lower case, the digest of a text, modification times and the check of a duration are
-- functions; the walk of a scan is a function of its filter, with the law that it gives only
-- what the filter lets through. BLAKE3, SQLite and the operating system are not defined here;
-- their calls are modelled by what the code relies on.
--
-- A hard or symbolic link to an object is modelled as a file with the content of the object, which is
-- never written in place.
--
-- Not modelled: the texts of error messages and logs, file permissions, what Windows does, that
-- an insert of a tag or of an indexed path also sets SQLite's last inserted row id, a
-- `path_index` that was migrated and so has no foreign key, the downloader, the HuggingFace
-- cache, the command line and the web interface.
pub mod Base
pub mod Hash
pub mod Db
pub mod Sys
pub mod Cas
pub mod Quarantine
pub mod Gc
pub mod Tx
pub mod Scanner
pub mod Dedup
pub mod Governance
pub mod Ingest
pub mod Unlink
pub mod Fsck
pub mod Workflow
pub mod Links
pub mod Platform
pub mod Proxy
