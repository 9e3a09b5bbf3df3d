-- ===== src/Lib.antt =====
-- HyprDrive: a file manager of several devices, whose daemon keeps an index of all volumes.
--
-- How the parts work together. An indexer reads a volume once, then polls its journal for changes
-- (crates/fs-indexer); on Windows without the rights for that it asks a privileged helper through a
-- named pipe (helpers/hyprdrive-helper-windows, crates/ipc-protocol). The watcher of the daemon
-- (apps/daemon/src/watcher.rs) gathers the changes of all volumes into batches, coalesces those of
-- each file, and gives each volume's processor its share. The object pipeline
-- (crates/object-pipeline) hashes entries through a cache, or defers that to a background task, and
-- writes objects and their locations to the database (core/src/db). The duplicate engine
-- (crates/dedup-engine) finds pairs of files of equal contents and groups them. Devices compare their histories by vector
-- clocks (core/src/domain/sync.rs).
--
-- Which file models which part:
-- - Prelude, Prelude/*: native numbers and their tests, lists, options, integers, sorted maps, hash
--   maps with an arbitrary order of iteration, results, texts as keys, and membership in lists.
-- - Changes: the entries, changes, cursors and errors of crates/fs-indexer/src/types.rs and error.rs.
-- - Sync, Sync/*: core/src/domain/sync.rs. A clock is the sorted list of a BTreeMap; a counter is
--   modulo 2^64.
-- - Watcher, Watcher/*: apps/daemon/src/watcher.rs. coalesce_changes, CoalescedState::fold and
--   change_fid are Watcher; the loop WatcherLoop::run is Watcher/Loop, over a list of polls, where
--   the debounce window and the full batch are events and tests.
-- - Dedup, Dedup/UnionFind/*: the union-find of crates/dedup-engine/src/grouping.rs. The two loops of
--   find run on fuel, which the largest rank bounds: with that fuel a well-formed union-find never
--   runs out. none stands for an index out of range or an endless loop.
-- - Dedup/Scanner, Dedup/Scanner/*: the content scan of crates/dedup-engine/src/scanner.rs, from the
--   sizes to the pairs of indices; Stages is one round of hashing and grouping.
-- - Dedup/Grouping, Dedup/Grouping/*: the groups of group_matches in
--   crates/dedup-engine/src/grouping.rs, as lists of indices. Dedup/Duplicates joins the scan and the
--   grouping.
-- - Ipc, Ipc/Framing, Ipc/Framing/*: crates/ipc-protocol/src/lib.rs.
-- - Helper/Server: helpers/hyprdrive-helper-windows/src/pipe_server.rs, from the bytes of a request
--   to the bytes of its answer. Helper/Client: crates/fs-indexer/src/platform/windows/pipe.rs.
--   Helper/EndToEnd joins the two.
-- - Hashing, Hashing/Batch: crates/object-pipeline/src/hasher.rs, with the inode cache of
--   core/src/db/cache.rs. The parallel hashing gives its results in the order of the entries.
-- - Hashing/Background, Hashing/Background/*: crates/object-pipeline/src/background_hasher.rs. Its
--   loop runs on fuel, for which one more than the number of deferred objects is enough.
-- - Store, Store/*: the tables of core/migrations and the queries of core/src/db/queries.rs that
--   change them. An SQL statement is its documented effect on lists of rows: WHERE, UPDATE, INSERT
--   with ON CONFLICT, unique keys, and the foreign keys with their actions. A statement that a
--   constraint refuses is none, and leaves the tables as they were. Other failures of SQLite are not
--   modelled; of the several rows that a SELECT of one may take, the first is taken. Rows and Rows/*
--   are the lemmas on lists of rows, Commands a run of the queries, Consistent the constraints;
--   Kept and Spared are about the locations that a cascade could take.
-- - Pipeline, Pipeline/*: crates/object-pipeline/src/pipeline.rs, on Hashing and Store. Its sort and
--   its chunks are those of the standard library; there are at most as many chunks as entries.
-- - Processor, Processor/*: crates/object-pipeline/src/change_processor.rs. The queries of the
--   database, the pipeline and the file system are an interface (Database, Files); a query that
--   fails may still have changed the database.
-- - Usn, Usn/Poll: crates/fs-indexer/src/platform/windows/usn.rs. The journal of the volume is a
--   parameter; the bounds of an i64 are not modelled, as no journal comes near them.
-- - Mft, Mft/Paths: the paths of crates/fs-indexer/src/platform/windows/mft.rs, with the 4096 rounds
--   of the source.
-- - Domain/Undo, Domain/Security, Domain/Transfer: core/src/domain/undo.rs, security.rs and
--   transfer.rs.
-- - The files Tests hold runs on concrete values, and the theorems at concrete arguments.
--
-- Outside code is a parameter, with its documented behaviour as a named hypothesis: the serialiser
-- (Codec, IsCodec), writers (Writer, IsWriter), chrono, to_string_lossy and the texts of errors
-- (Platform, IsPlatform), HMAC and the encodings that it is fed (Crypto, IsCrypto), the bitmap of a checkpoint (Bitmap, IsBitmap), the journal (Journal, Holds), hash functions and the file
-- system (Hasher), and the order of iteration of a hash map (Visit).
-- A name or a path of the system is a String, whether it is Unicode or not; where the code calls
-- to_string_lossy on it, a parameter is applied.
--
-- Not modelled: the listings, reports and full-text search of the
-- database and its directory sizes, the actions, the scanners and listeners of the platforms,
-- filters, the kinds, references and report of the duplicate scanner and its floating-point matchers, the treemap, and the
-- user interfaces. Logging is left out everywhere.
pub mod Prelude
pub mod Changes
pub mod Sync
pub mod Watcher
pub mod Dedup
pub mod Ipc
pub mod Helper
pub mod Hashing
pub mod Processor
pub mod Usn
pub mod Mft
pub mod Store
pub mod Pipeline
pub mod Domain
