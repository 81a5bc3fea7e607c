-- ===== src/Bench/Main/ReadOnly.antt =====
-- What the program of crates/bench/src/bin/datadir_bench.rs does to a database that it only reads.
use Prim.Native.String.{String}
use reth_trie_rebuild_bench.Base.{
  ℕ, zero, suc, ◌+◌, ◌≡◌, refl, ◌∙◌, Bool, true, false, Option, none, some, List, if◌then◌else◌,
}
use reth_trie_rebuild_bench.Base.Result.{Result, ok, err}
use reth_trie_rebuild_bench.Trie.{B256}
use reth_trie_rebuild_bench.Database.{TrieDb}
use reth_trie_rebuild_bench.Tables.{digest_trie_tables}
use reth_trie_rebuild_bench.Mdbx.{reth_serial_root}
use reth_trie_rebuild_bench.Bench.Args.{Args, Parsed, parsed, usage, parse_args}
use reth_trie_rebuild_bench.Bench.Host.{Label, of_serial, of_run, Line, Heap, Build, Host}
use reth_trie_rebuild_bench.Bench.Program.{
  Machine, Flow, returned, stopped, and_then, ◌>>=◌, println, expect, machine_of, pure, stop,
  exited, Status,
}
use reth_trie_rebuild_bench.Bench.Steps.{
  Bench, read_tx, reset_heap, read_peak, print_all, mismatch, report, check_root, show_usage, runs,
  writes,
}
use reth_trie_rebuild_bench.Bench.Main.{
  print_tip, hashed_entries, print_trie_tables_digest, serial_branch, digest_build, digest_run,
  digest_branch, read_branch, measure, run_args, run_parsed, main,
}

-- None of the flags that open the database for writing.
abbrev pub OnlyReads : Args → Type 0
OnlyReads args =
    (args.clear_trie_tables ≡ false) × (args.reth_rebuild ≡ false) × (args.write ≡ false)

OnlyReads-writes : (args : Args) → OnlyReads args → writes args ≡ false
unfolding writes
OnlyReads-writes args (a, b, c) = rw (a, b, c) refl

module _ (D : TrieDb) where
  -- However the program ends, the database is as it was.
  record Keeps {A : Type 0} (m : Bench D A) : Type 0 where
    unchanged : (s : Machine D.Db Line) → (machine_of (m s)).db ≡ s.db

  and_then-unchanged :
      {A B : Type 0} (f : Flow D.Db Line A) (next : A → Bench D B)
      → ((a : A) → Keeps (next a))
      → (machine_of (and_then f next)).db ≡ (machine_of f).db
  unfolding and_then
  and_then-unchanged (returned a s) next k = (k a).unchanged s
  and_then-unchanged (stopped why s) next k = refl

  >>=-Keeps :
      {A B : Type 0} {m : Bench D A} {next : A → Bench D B}
      → Keeps m
      → ((a : A) → Keeps (next a))
      → Keeps (m >>= next)
  unfolding ◌>>=◌
  >>=-Keeps {m} {next} h k = record {
    unchanged = λ s. and_then-unchanged (m s) next k ∙ h.unchanged s;
  }

  expect-Keeps :
      {E A : Type 0} (result : Result E A) (message : String) → Keeps (expect result message)
  unfolding expect pure stop
  expect-Keeps (ok a) message = record { unchanged = λ s. refl }
  expect-Keeps (err e) message = record { unchanged = λ s. refl }

  read_tx-Keeps : Keeps (read_tx D)
  unfolding read_tx
  read_tx-Keeps = record { unchanged = λ s. (expect-Keeps (D.tx s.db) _).unchanged s }

  println-Keeps : (line : Line) → Keeps (println line)
  unfolding println
  println-Keeps line = record { unchanged = λ s. refl }

  pure-Keeps : {A : Type 0} (a : A) → Keeps (pure a)
  unfolding pure
  pure-Keeps a = record { unchanged = λ s. refl }

  reset_heap-Keeps : (heap : Heap) → Keeps (reset_heap D heap)
  unfolding reset_heap
  reset_heap-Keeps heap = record { unchanged = λ s. refl }

  read_peak-Keeps : (heap : Heap) → Keeps (read_peak D heap)
  unfolding read_peak
  read_peak-Keeps heap = record { unchanged = λ s. refl }

  print_all-Keeps : (lines : List Line) → Keeps (print_all D lines)
  unfolding print_all
  print_all-Keeps lines = record { unchanged = λ s. refl }

  stop-Keeps : {A : Type 0} (why : Status) → Keeps (stop {A = A} why)
  unfolding stop
  stop-Keeps why = record { unchanged = λ s. refl }

  report-Keeps : {a b : B256} (d : Dec (a ≡ b)) (good bad : Line) → Keeps (report D d good bad)
  unfolding report mismatch
  report-Keeps (yes _) good bad = println-Keeps good
  report-Keeps (no _) good bad = >>=-Keeps (println-Keeps bad) (λ _. stop-Keeps (exited 1))

  check_root-Keeps :
      (root : B256) (expected : Option B256) (label : Label)
      → Keeps (check_root D root expected label)
  unfolding check_root
  check_root-Keeps root none label = pure-Keeps tt
  check_root-Keeps root (some expected) label = report-Keeps _ _ _

  runs-Keeps :
      (body : ℕ → Bench D (Unit {0})) (count first : ℕ)
      → ((run : ℕ) → Keeps (body run))
      → Keeps (runs D body count first)
  unfolding runs
  runs-Keeps body zero first h = pure-Keeps tt
  runs-Keeps body (suc count) first h =
      >>=-Keeps (h first) (λ _. runs-Keeps body count (first + 1) h)

  show_usage-Keeps : (message : String) → Keeps (show_usage D message)
  unfolding show_usage
  show_usage-Keeps message = >>=-Keeps (println-Keeps _) (λ _. stop-Keeps (exited 2))

  module _ (H : Host D) where
    print_tip-Keeps : (tx : D.Tx) → Keeps (print_tip D H tx)
    unfolding print_tip
    print_tip-Keeps tx = >>=-Keeps (expect-Keeps (H.finish_block tx) _) (λ block. println-Keeps _)

    hashed_entries-Keeps : (tx : D.Tx) → Keeps (hashed_entries D H tx)
    unfolding hashed_entries
    hashed_entries-Keeps tx = >>=-Keeps (expect-Keeps (H.entries_of_accounts tx) _) (λ accounts.
        >>=-Keeps (expect-Keeps (H.entries_of_storages tx) _) (λ storages. pure-Keeps _))

    digest-Keeps : (tx : D.Tx) → Keeps (print_trie_tables_digest D H tx)
    unfolding print_trie_tables_digest
    digest-Keeps tx =
        >>=-Keeps (expect-Keeps (digest_trie_tables D H.tables H.hashing tx) _)
          (λ tables. println-Keeps _)

    serial_branch-Keeps :
        (expected : Option B256) (tx : D.Tx) → Keeps (serial_branch D H expected tx)
    unfolding serial_branch
    serial_branch-Keeps expected tx = >>=-Keeps (reset_heap-Keeps _) (λ _.
        >>=-Keeps (expect-Keeps (reth_serial_root D H.state_root tx) _) (λ root.
          >>=-Keeps (read_peak-Keeps _)
            (λ peak. >>=-Keeps (println-Keeps _) (λ _. check_root-Keeps root expected of_serial))))

    digest_build-Keeps :
        (args : Args) (entries run : ℕ) (b : Build D) → Keeps (digest_build D H args entries run b)
    unfolding digest_build
    digest_build-Keeps args entries run b = >>=-Keeps (reset_heap-Keeps _) (λ _.
        >>=-Keeps (print_all-Keeps _) (λ _. >>=-Keeps (expect-Keeps b.result _) (λ root.
          >>=-Keeps (read_peak-Keeps _) (λ peak.
            >>=-Keeps (println-Keeps _)
              (λ _. check_root-Keeps root args.expected_root (of_run run))))))

    digest_branch-Keeps : (args : Args) (tx : D.Tx) → Keeps (digest_branch D H args tx)
    unfolding digest_branch digest_run
    digest_branch-Keeps args tx = >>=-Keeps (hashed_entries-Keeps tx) (λ entries.
        >>=-Keeps (println-Keeps _) (λ _.
          runs-Keeps (digest_run D H args entries) args.repeat 1 (λ run. record {
            unchanged = λ s. (digest_build-Keeps args entries run (H.build run s.db)).unchanged s;
          })))

    read_branch-Keeps : (args : Args) (tx : D.Tx) → Keeps (read_branch D H args tx)
    unfolding read_branch
    read_branch-Keeps args tx = choose args.digest_trie_tables args.reth_serial
      where
        choose :
            (digests serial : Bool)
            → Keeps (
                if digests
                then print_trie_tables_digest D H tx
                else (if serial
                    then serial_branch D H args.expected_root tx
                    else digest_branch D H args tx))
        choose true serial = digest-Keeps tx
        choose false true = serial_branch-Keeps args.expected_root tx
        choose false false = digest_branch-Keeps args tx

    measure-Keeps : (args : Args) (cpus : ℕ) → Keeps (measure D H args cpus)
    unfolding measure
    measure-Keeps args cpus = >>=-Keeps (expect-Keeps (H.open_db_read_only args.datadir) _) (λ _.
        >>=-Keeps read_tx-Keeps (λ tx.
          >>=-Keeps (print_tip-Keeps tx)
            (λ _. >>=-Keeps (println-Keeps _) (λ _. read_branch-Keeps args tx))))

    run_args-Keeps : (args : Args) → writes args ≡ false → Keeps (run_args D H args)
    unfolding run_args
    run_args-Keeps args reads =
        >>=-Keeps (expect-Keeps (H.cpu_threads args.threads) _)
          (λ cpus. rw reads (measure-Keeps args cpus))

    run_parsed-Keeps :
        (p : Parsed)
        → ((args : Args) → p ≡ parsed args → writes args ≡ false)
        → Keeps (run_parsed D H p)
    unfolding run_parsed
    run_parsed-Keeps (usage message) reads = show_usage-Keeps message
    run_parsed-Keeps (parsed args) reads = run_args-Keeps args (reads args refl)

    -- Without `--write`, `--reth-rebuild` and `--clear-trie-tables`, the database is as it was,
    -- whatever else the command line says and however the program ends.
    pub main-unchanged :
        (argv : List String)
        → ((args : Args) → parse_args H.parse_root argv ≡ parsed args → OnlyReads args)
        → (s : Machine D.Db Line) → (machine_of (main D H argv s)).db ≡ s.db
    unfolding main
    main-unchanged argv reads =
        (run_parsed-Keeps (parse_args H.parse_root argv)
          (λ args e. OnlyReads-writes args (reads args e))).unchanged
