-- ===== src/Bench/Main.antt =====
-- `main` of crates/bench/src/bin/datadir_bench.rs and its helpers.
mod Sent
pub mod Reported
pub mod Failed
mod Works
pub mod Left
mod Rebuilds
pub mod Written
pub mod Confirmed
pub mod Sound
mod Leads
mod Checks
mod Builds
mod Branches
pub mod Verdict
pub mod ReadOnly
use Prim.Native.String.{String}
use reth_trie_rebuild_bench.Base.{
  ℕ, ◌+◌, ◌%◌, ◌^◌, Option, none, some, List, [], map, if◌then◌else◌,
}
use reth_trie_rebuild_bench.Base.Result.{ok, err}
use reth_trie_rebuild_bench.Trie.{B256, Node, digits_discrete}
use reth_trie_rebuild_bench.Alloc.Human.{human_bytes}
use reth_trie_rebuild_bench.Digest.{new_digest, push, snapshot}
use reth_trie_rebuild_bench.Database.{TrieDb}
use reth_trie_rebuild_bench.Rebuild.Serial.{Rebuilt, Rebuild, reth_rebuild}
use reth_trie_rebuild_bench.Writer.{Outcome, write_sink}
use reth_trie_rebuild_bench.Tables.{digest_trie_tables}
use reth_trie_rebuild_bench.Mdbx.{reth_serial_root}
use reth_trie_rebuild_bench.Progress.{ProgressSink, new_progress}
use reth_trie_rebuild_bench.Bench.Args.{Args, Parsed, parsed, usage, parse_args}
use reth_trie_rebuild_bench.Bench.Host.{
  of_rebuild, of_serial, of_run, trie_tables_cleared, tip_is, threads_are, hashed_entries_are,
  progressed, chunk_committed, rebuilt, run_written, run_digested, serial_root, tables_digested,
  walk_matches, walk_mismatch, progress_interval, on_events, Build, Host,
}
use reth_trie_rebuild_bench.Bench.Program.{unfinished, ◌>>=◌, pure, stop, println, expect}
use reth_trie_rebuild_bench.Bench.Steps.{
  take, send, Bench, read_tx, set_db, reset_heap, read_peak, print_all, report, check_root,
  show_usage, clear_tables, runs, when, writes,
}

module _ (D : TrieDb) (H : Host D) where
  unfoldable pub print_tip : D.Tx → Bench D (Unit {0})
  print_tip tx = do
    block ← expect (H.finish_block tx) "read stage checkpoints"
    println (tip_is block)

  unfoldable pub hashed_entries : D.Tx → Bench D ℕ
  hashed_entries tx = do
    accounts ← expect (H.entries_of_accounts tx) "count hashed accounts"
    storages ← expect (H.entries_of_storages tx) "count hashed storages"
    pure ((accounts + storages) % 2 ^ 64)

  unfoldable pub print_trie_tables_digest : D.Tx → Bench D (Unit {0})
  print_trie_tables_digest tx = do
    tables ← expect (digest_trie_tables D H.tables H.hashing tx) "digest trie tables"
    println (tables_digested tables)

  unfoldable pub compare_walk : B256 → B256 → Bench D (Unit {0})
  compare_walk walked root =
      report D (digits_discrete walked root) (walk_matches walked) (walk_mismatch walked root)

  unfoldable pub check_written_tables : D.Tx → B256 → Bench D (Unit {0})
  check_written_tables tx root = do
    _ ← print_trie_tables_digest tx
    walked ← expect (reth_serial_root D H.state_root tx) "reth StateRoot over written tables"
    compare_walk walked root

  -- `reth_rebuild(&*db, None, …)`: what it has logged, what it leaves and what it returns.
  unfoldable pub after_rebuild : Option (Rebuild D H.walk) → Bench D Rebuilt
  after_rebuild none = stop unfinished
  after_rebuild (some o) = do
    _ ← print_all D (map chunk_committed o.log)
    _ ← set_db D o.db
    expect o.result "reth rebuild"

  unfoldable pub rebuild_tables : Bench D Rebuilt
  rebuild_tables s =
      (do end ← expect (reth_rebuild D H.walk none H.fuel s.db) "reth rebuild"; after_rebuild end) s

  -- The branches of `main` for `--reth-rebuild` and for `--write`.
  unfoldable pub rebuild_branch : Option B256 → Bench D (Unit {0})
  rebuild_branch expected = do
    tx ← read_tx D
    _ ← print_tip tx
    _ ← reset_heap D H.rebuild_heap
    done ← rebuild_tables
    peak ← read_peak D H.rebuild_heap
    _ ← println (rebuilt done (human_bytes peak))
    _ ← check_root D done.root expected of_rebuild
    tx ← read_tx D
    check_written_tables tx done.root

  -- The nodes that the writer receives of those that a build has sent.
  abbrev pub received_of : Build D → List Node → List Node
  received_of b sent = elim b.result [ ok _ ↦ sent | err _ ↦ take b.received sent ]

  abbrev pub sink_of : {S : Type 0} → (S → Node → S) → S → ℕ → Build D → ProgressSink S
  sink_of f inner entries b =
      on_events f (new_progress inner entries progress_interval b.started) b.events

  unfoldable pub run_writer : ℕ → List Node → Bench D (Outcome D)
  run_writer chunk_nodes sent s = expect (write_sink D chunk_nodes s.db sent) "writer" s

  -- A run's build and its writer. A build that still sends when the writer has failed panics in
  -- `send`, with another message than `finish` has.
  unfoldable pub write_build : Args → ℕ → ℕ → Build D → Bench D (Unit {0})
  write_build args entries run b = do
    _ ← reset_heap D b.heap
    let sink = sink_of send [] entries b
    outcome ← run_writer args.chunk_nodes (received_of b sink.inner)
    _ ← print_all D (map progressed sink.log)
    _ ← set_db D outcome.db
    root ← expect b.result "state root"
    written ← expect outcome.result "write trie tables"
    peak ← read_peak D b.heap
    _ ← println (run_written run root sink.walked written (human_bytes peak))
    _ ← check_root D root args.expected_root (of_run run)
    tx ← read_tx D
    check_written_tables tx root

  unfoldable pub write_run : Args → ℕ → ℕ → Bench D (Unit {0})
  write_run args entries run = do
    _ ← clear_tables D
    λ s. write_build args entries run (H.build run s.db) s

  unfoldable pub write_branch : Args → ℕ → Bench D (Unit {0})
  write_branch args cpus = do
    tx ← read_tx D
    _ ← print_tip tx
    _ ← println (threads_are cpus)
    tx ← read_tx D
    entries ← hashed_entries tx
    _ ← println (hashed_entries_are entries)
    runs D (write_run args entries) args.repeat 1

  unfoldable pub clear_branch : Bench D (Unit {0})
  clear_branch = do _ ← clear_tables D; println trie_tables_cleared

  unfoldable pub change : Args → ℕ → Bench D (Unit {0})
  change args cpus = do
    _ ← expect (H.open_db args.datadir) "open datadir db read-write"
    _ ← when D args.clear_trie_tables clear_branch
    _ ← when D args.reth_rebuild (rebuild_branch args.expected_root)
    when D args.write (write_branch args cpus)

  unfoldable pub serial_branch : Option B256 → D.Tx → Bench D (Unit {0})
  serial_branch expected tx = do
    _ ← reset_heap D H.serial_heap
    root ← expect (reth_serial_root D H.state_root tx) "reth StateRoot"
    peak ← read_peak D H.serial_heap
    _ ← println (serial_root root (human_bytes peak))
    check_root D root expected of_serial

  unfoldable pub digest_build : Args → ℕ → ℕ → Build D → Bench D (Unit {0})
  digest_build args entries run b = do
    let sink = sink_of (push H.hashing) new_digest entries b
    _ ← reset_heap D b.heap
    _ ← print_all D (map progressed sink.log)
    root ← expect b.result "state root"
    peak ← read_peak D b.heap
    _ ← println (run_digested run root sink.walked (snapshot sink.inner) (human_bytes peak))
    check_root D root args.expected_root (of_run run)

  unfoldable pub digest_run : Args → ℕ → ℕ → Bench D (Unit {0})
  digest_run args entries run s = digest_build args entries run (H.build run s.db) s

  unfoldable pub digest_branch : Args → D.Tx → Bench D (Unit {0})
  digest_branch args tx = do
    entries ← hashed_entries tx
    _ ← println (hashed_entries_are entries)
    runs D (digest_run args entries) args.repeat 1

  -- What is done once the tip and the threads are printed.
  unfoldable pub read_branch : Args → D.Tx → Bench D (Unit {0})
  read_branch args tx =
      if args.digest_trie_tables
      then print_trie_tables_digest tx
      else (if args.reth_serial then serial_branch args.expected_root tx else digest_branch args tx)

  unfoldable pub measure : Args → ℕ → Bench D (Unit {0})
  measure args cpus = do
    _ ← expect (H.open_db_read_only args.datadir) "open datadir db read-only"
    tx ← read_tx D
    _ ← print_tip tx
    _ ← println (threads_are cpus)
    read_branch args tx

  -- crates/bench/src/lib.rs: the threads of the CPU pool of the runtime that is built.
  abbrev pub runtime : Option ℕ → Bench D ℕ
  runtime threads = expect (H.cpu_threads threads) "runtime builds"

  unfoldable pub run_args : Args → Bench D (Unit {0})
  run_args args = do
    cpus ← runtime args.threads
    if writes args then change args cpus else measure args cpus

  unfoldable pub run_parsed : Parsed → Bench D (Unit {0})
  run_parsed (usage message) = show_usage D message
  run_parsed (parsed args) = run_args args

  unfoldable pub main : List String → Bench D (Unit {0})
  main argv = run_parsed (parse_args H.parse_root argv)
