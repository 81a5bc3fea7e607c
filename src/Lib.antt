-- ===== src/Lib.antt =====
-- Verification of reth-trie-rebuild-bench (crates/bench): building a state trie's nodes from
-- hashed state, collecting, digesting and writing them, and the tools that measure it.
--
-- A build (reth's `PartitionedStateRoot`) emits branch nodes from several workers into a sink.
-- The crate has four sinks. `TrieUpdatesSink` keeps all nodes; `NodeDigest` folds them into an
-- order-independent digest; `MdbxWriteSink` hands them to a thread that commits them to the trie
-- tables in chunks; `ProgressSink` wraps another sink and logs. `reth_rebuild` does the same
-- work with reth's serial walk. The benchmark compares their digests, roots and tables.
--
-- Files, with the code each is about (paths from the repository's root):
--   Base: numbers, lists, results, association lists and `BTreeMap`s (Base/SortedMap), bit
--     operators (Base/Bits), decimal text (Base/Decimal), permutations, lexicographic order
--     (Base/Ordered).
--   Trie: hashes, paths, branch nodes and `TrieUpdates`; Trie/Nodes: a node map with one more
--     node, `insert_node`, which both sinks that keep nodes share; Trie/Distinct: runs of nodes
--     in which no place stands twice.
--   Updates: crates/bench/src/updates.rs, and `without_empty_storage_tries` of
--     crates/bench/src/lib.rs. `on_branch_node`, `into_trie_updates` and `collect`, a run of
--     calls.
--   Digest: crates/bench/src/digest.rs. `push`, `snapshot`, `of_trie_updates`; Digest/Atomics
--     has the atomic operations of concurrent pushes.
--   Database: the operations of reth's database crates that the code calls, as an interface
--     (`TrieDb`) with their documented behaviour (`IsTrieDb`). Of
--     `write_storage_trie_updates_sorted` that is for updates that add nodes below the root, as
--     it passes over an empty path. Tests/Tables has an instance.
--   Rebuild: crates/bench/src/rebuild.rs, and `uses_packed_trie_keys` of
--     crates/bench/src/mdbx.rs. `write_trie_updates_with` writes; Rebuild/Serial has `rebuild`,
--     the loop of reth's rebuild, and `reth_rebuild`.
--   Writer: crates/bench/src/writer.rs. `write_chunks` is the thread's function, over the list
--     of nodes that it receives; `write_sink` is `new`, the sends and `finish`; Writer/Channel
--     has the bounded channel with several workers, and Writer/Session that with a writer that
--     may stop.
--   Alloc: crates/bench/src/alloc.rs. Alloc/Heap has the calls against the live heap, Alloc/Race
--     the interleavings of atomic operations, Alloc/Human `human_bytes`.
--   Progress: crates/bench/src/progress.rs. `on_progress`, with the clock's readings as
--     arguments.
--   Memory: crates/bench/src/memory.rs. `MemoryState` with its ordered maps and its cache.
--   Synth: crates/bench/src/synth.rs. `next_u64` and what draws from it, and `synthesize`.
--   Tables: `digest_trie_tables` of crates/bench/src/mdbx.rs.
--   Mdbx: the rest of crates/bench/src/mdbx.rs. `write_hashed_state`, `write_storage_settings`,
--     `reth_serial_root` and the provider over one transaction.
--   Bench: crates/bench/src/bin/datadir_bench.rs. Bench/Args has `parse_args`, with the words of
--     a command line (Bench/Args/Words, Bench/Args/Accepted), what they mean
--     (Bench/Args/Meaning) and the command line of given arguments (Bench/Args/Printed);
--     Bench/Usize has the standard library's `str::parse::<usize>`, and Bench/Decimals numbers
--     printed and read. Bench/Program has programs that print and may stop (`exit`, a panic),
--     and Bench/Triple the rules for how they end. Bench/Host has the printed lines and the
--     host; Bench/Steps and Bench/Main have `main`, a function for each of its branches and
--     helpers. Below Bench/Main, ReadOnly is about runs that only read; Reported about a build's
--     progress; Confirmed about the walk over the written tables; Sound, Leads, Checks, Builds,
--     Branches and Verdict about the printed lines and the exit status; Sent, Failed, Works,
--     Left, Rebuilds and Written about the tables.
--   Tests: runs at concrete data.
--
-- Hash maps are association lists in insertion order, and ordered maps are sorted lists. 64-bit
-- atomics wrap; `usize` totals of the writer and the rebuild are not bounded. The only fuel of a
-- program is that of `rebuild`, one unit for each round of the walk: as many units as the walk
-- has rounds are enough, and a `main` with too few ends as `unfinished`. The eleven bits that a
-- 64-bit number has over a float's mantissa, and the 20 digits of one, are bounds of the code's
-- own types. A panic is `none` in Updates, Synth and `write_storage_settings`, and a `Status` in
-- Bench; the `debug_assert!` of Updates is one where `debug` says that assertions are checked;
-- that of the writer is left out, and its theorems are about runs that it would pass.
--
-- Parameters, as code of other crates: the hash and the packing of paths (`Hashing`), the
-- database (`TrieDb`), the serial walk (`Walk`), the walks of the tables (`TableWalks`), the
-- sorting of a post-state (`Sorting`) and reth's cursors over it (`Cursors`), the inner sink of
-- `ProgressSink`, the pointers of the system allocator, the puts into other tables (`Metadata`,
-- `HashedTables`), the root over a transaction (`StateRoot`), and what `main` takes besides
-- (`Host`): the parallel build as the events that its sink receives, the thread pool, opening
-- the database, the counts of tables, clocks, and the allocator's callers.
--
-- Not modelled: in Bench, a send that finds the writer gone after a failed commit
-- (Writer/Session has it; in Bench such a run ends in the panic of `finish`); elapsed times, and
-- the numbers of progress lines that are floats; the example program and the tests of the crate.
pub mod Base
pub mod Trie
pub mod Updates
pub mod Digest
pub mod Database
pub mod Rebuild
pub mod Writer
pub mod Alloc
pub mod Progress
pub mod Memory
pub mod Synth
pub mod Tables
pub mod Mdbx
pub mod Bench
pub mod Tests
