-- ===== src/Bench/Host.antt =====
-- What the program of crates/bench/src/bin/datadir_bench.rs prints, and what it takes from reth, from
-- the clock and from the allocator's callers: the host, a parameter. A line is kept as the values it
-- prints, without the elapsed time.
use Prim.Native.String.{String}
use reth_trie_rebuild_bench.Base.{ℕ, Option, List, [], ◌∷◌}
use reth_trie_rebuild_bench.Base.Result.{Result}
use reth_trie_rebuild_bench.Trie.{B256, Node}
use reth_trie_rebuild_bench.Alloc.{Call}
use reth_trie_rebuild_bench.Digest.{Hashing, Digest}
use reth_trie_rebuild_bench.Database.{TrieDb}
use reth_trie_rebuild_bench.Rebuild.Serial.{Walk, Rebuilt, ChunkLine}
use reth_trie_rebuild_bench.Writer.{Written}
use reth_trie_rebuild_bench.Tables.{TableWalks, TrieTablesDigest}
use reth_trie_rebuild_bench.Mdbx.{StateRoot}
use reth_trie_rebuild_bench.Progress
use reth_trie_rebuild_bench.Progress.{ProgressSink, on_progress}

-- The labels "reth rebuild", "reth serial" and "run {run}".
pub data Label : Type 0 where
  of_rebuild of_serial : Label
  of_run : ℕ → Label

-- What is printed, by `println!` and by `eprintln!`.
pub data Line : Type 0 where
  trie_tables_cleared : Line
  tip_is : Option ℕ → Line
  threads_are : ℕ → Line
  hashed_entries_are : ℕ → Line
  progressed : Progress.Line → Line
  chunk_committed : ChunkLine → Line
  rebuilt : (done : Rebuilt) (peak : String) → Line
  run_written : (run : ℕ) (root : B256) (walked : ℕ) (written : Written) (peak : String) → Line
  run_digested : (run : ℕ) (root : B256) (walked : ℕ) (digest : Digest) (peak : String) → Line
  serial_root : (root : B256) (peak : String) → Line
  tables_digested : TrieTablesDigest → Line
  walk_matches : (root : B256) → Line
  walk_mismatch : (got expected : B256) → Line
  root_matches : Label → Line
  root_mismatch : (label : Label) (expected : B256) → Line
  usage_is : String → Line

-- 10 s in nanoseconds.
abbrev pub progress_interval : ℕ
progress_interval = 10_000_000_000

-- What a build calls its sink with: a node, or a number of entries with the readings of the clock.
pub data Event : Type 0 where
  emits : Node → Event
  walks : (entries now relogged logged : ℕ) → Event

unfoldable pub on_event : {S : Type 0} → (S → Node → S) → ProgressSink S → Event → ProgressSink S
on_event f sink (emits e) = Progress.on_branch_node f sink e
on_event f sink (walks entries now relogged logged) = on_progress sink entries now relogged logged

unfoldable pub on_events :
    {S : Type 0} → (S → Node → S) → ProgressSink S → List Event → ProgressSink S
on_events f sink [] = sink
on_events f sink (event ∷ events) = on_events f (on_event f sink event) events

-- The allocator's calls before its peak is reset, and from there to where the peak is read.
pub record Heap : Type 0 where
  pub before : List Call
  pub during : List Call

module _ (D : TrieDb) where
  -- One run of `PartitionedStateRoot::root_with_sink`, from its start on. If it fails, `received`
  -- is how many of its nodes the writer still takes before the program has ended.
  pub record Build : Type 0 where
    pub started : ℕ
    pub events : List Event
    pub result : Result D.Error B256
    pub received : ℕ
    pub heap : Heap

  pub record Host : Type 1 where
    pub walk : Walk D
    pub tables : TableWalks D
    pub hashing : Hashing
    pub state_root : StateRoot D
    -- `B256`'s `FromStr`
    pub parse_root : String → Option B256
    -- the threads of the CPU pool of the built runtime
    pub cpu_threads : Option ℕ → Result D.Error ℕ
    -- `open_db` and `open_db_read_only` of the directory `db` in the data directory
    pub open_db : String → Result D.Error (Unit {0})
    pub open_db_read_only : String → Result D.Error (Unit {0})
    -- the block number of the `Finish` stage's checkpoint
    pub finish_block : D.Tx → Result D.Error (Option ℕ)
    pub entries_of_accounts : D.Tx → Result D.Error ℕ
    pub entries_of_storages : D.Tx → Result D.Error ℕ
    -- the build of a run on a database
    pub build : ℕ → D.Db → Build
    -- more rounds than `reth_rebuild` makes
    pub fuel : ℕ
    pub rebuild_heap : Heap
    pub serial_heap : Heap
