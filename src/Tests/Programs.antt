-- ===== src/Tests/Programs.antt =====
-- The program, on a host whose operations succeed.
use Prim.Native.String.{String}
use reth_trie_rebuild_bench.Base.{
  ◌-◌, ◌*◌, ◌≤◌, ◌≡◌, refl, sym, ◌∙◌, some, true, List, [], ◌∷◌, All, length, replicate, arith,
}
use reth_trie_rebuild_bench.Base.Result.{ok}
use reth_trie_rebuild_bench.Trie.{B256, Node}
use reth_trie_rebuild_bench.Alloc.{new_alloc, alloc, dealloc}
use reth_trie_rebuild_bench.Bench.Usize.{
  code_points, parse_usize, parse_number, parse_digits, digit_of, push_digit,
}
use reth_trie_rebuild_bench.Bench.Args.{
  Args, default_args, parsed, flag_of, first_arm, switch_on, store_value, check_datadir,
  parse_flags, parse_args,
}
use reth_trie_rebuild_bench.Bench.Host.{
  Line, Event, emits, walks, Host, progress_interval, on_events,
}
use reth_trie_rebuild_bench.Bench.Steps.{send}
use reth_trie_rebuild_bench.Progress.{new_progress}
use reth_trie_rebuild_bench.Progress.Lines.{IsLine}
use reth_trie_rebuild_bench.Bench.Main.Reported.{reported, last_reading, on_events-new_progress}
use reth_trie_rebuild_bench.Bench.Program.{Machine, machine_of}
use reth_trie_rebuild_bench.Bench.Triple.{Ends}
use reth_trie_rebuild_bench.Bench.Main.{main}
use reth_trie_rebuild_bench.Bench.Main.ReadOnly.{OnlyReads, main-unchanged}
use reth_trie_rebuild_bench.Bench.Main.Verdict.{Verdict}
use reth_trie_rebuild_bench.Bench.Main.Confirmed.{Stopped, Confirmed, main-Confirmed}
use reth_trie_rebuild_bench.Bench.Main.Failed.{Failed}
use reth_trie_rebuild_bench.Bench.Main.Left.{Left, SendsStored}
use reth_trie_rebuild_bench.Bench.Main.Written.{main-Left}
use reth_trie_rebuild_bench.Tests.Data.{
  emitted-IsStored, emitted-Distinct, toy_hashing, account_node, storage_node, deep_node,
}
use reth_trie_rebuild_bench.Tests.Tables.{log_db, log_db-IsTrieDb}
use reth_trie_rebuild_bench.Tests.Rebuilds.{three_rounds}
use reth_trie_rebuild_bench.Tests.Scans.{two_tables}

abbrev nines : B256
nines = replicate 32 9

abbrev events : List Event
events =
    emits account_node
    ∷ walks 3 5 6 7
    ∷ emits storage_node
    ∷ emits deep_node
    ∷ walks 4 20_000_000_000 20_000_000_001 20_000_000_002
    ∷ []

abbrev host : Host log_db
host = record {
  walk = three_rounds;
  tables = two_tables;
  hashing = toy_hashing;
  state_root = record {
    root = λ k tx. ok nines;
    root_with_updates =
        λ k tx. ok (nines, record { account_nodes = []; removed_nodes = []; storage_tries = [] });
  };
  parse_root = λ text. some (code_points text);
  cpu_threads = λ threads. ok 4;
  open_db = λ datadir. ok tt;
  open_db_read_only = λ datadir. ok tt;
  finish_block = λ tx. ok (some 100);
  entries_of_accounts = λ tx. ok 3;
  entries_of_storages = λ tx. ok 4;
  build = λ run db. record {
    started = 0;
    events = events;
    result = ok nines;
    received = 0;
    heap = record { before = []; during = alloc 100 (some 1) ∷ dealloc 1 100 ∷ [] };
  };
  fuel = 3;
  rebuild_heap = record { before = []; during = [] };
  serial_heap = record { before = []; during = [] };
}

abbrev fresh : Machine (List Node) Line
fresh = record { db = account_node ∷ []; lines = []; heap = new_alloc }

abbrev two_writes : List String
two_writes = "--datadir" ∷ "data" ∷ "--repeat" ∷ "2" ∷ "--write" ∷ []

abbrev write_args : Args
write_args = record default_args { datadir = "data"; repeat = 2; write = true }

two_writes-parsed : parse_args host.parse_root two_writes ≡ parsed write_args
unfolding parse_args parse_flags flag_of first_arm switch_on store_value check_datadir parse_usize
    code_points parse_number parse_digits digit_of push_digit
two_writes-parsed = refl

events-SendsStored : SendsStored log_db log_db-IsTrieDb host write_args
events-SendsStored = record {
  stored = λ run db. emitted-IsStored;
  distinct = λ run db. emitted-Distinct;
}

main-Left_example :
    Ends
      (λ why t. Failed log_db host write_args t.db)
      (λ _ t. Left log_db log_db-IsTrieDb host write_args 2 t.db)
      (main log_db host two_writes fresh)
main-Left_example =
    main-Left log_db log_db-IsTrieDb host write_args two_writes two_writes-parsed refl
      events-SendsStored fresh

abbrev one_read : List String
one_read = "--datadir" ∷ "data" ∷ []

one_read-parsed :
    parse_args host.parse_root one_read ≡ parsed (record default_args { datadir = "data" })
unfolding parse_args parse_flags flag_of first_arm switch_on store_value check_datadir
one_read-parsed = refl

one_read-OnlyReads :
    (args : Args) → parse_args host.parse_root one_read ≡ parsed args → OnlyReads args
one_read-OnlyReads args e =
    let given : parsed (record default_args { datadir = "data" }) ≡ parsed args =
      sym one_read-parsed ∙ e in
    let same : record default_args { datadir = "data" } ≡ args = cc in
    rw (← same) (refl, refl, refl)

main-unchanged_example : (machine_of (main log_db host one_read fresh)).db ≡ account_node ∷ []
main-unchanged_example = main-unchanged log_db host one_read one_read-OnlyReads fresh

-- The second report comes an interval after the start and is printed.
on_events-new_progress_example :
    ((on_events send (new_progress [] 100 progress_interval 0) events).walked ≡ reported events)
    × All
        (IsLine 100 (reported events))
        (on_events send (new_progress [] 100 progress_interval 0) events).log
    × (length (on_events send (new_progress [] 100 progress_interval 0) events).log
          * progress_interval
        ≤ last_reading 0 events - 0)
on_events-new_progress_example =
    on_events-new_progress send [] 100 progress_interval 0 events
      ((omega arith, omega arith), (omega arith, ((omega arith, omega arith), (omega arith, tt))))
      (omega arith)

main-Confirmed_example :
    Ends
      (Stopped log_db host)
      (λ _ t. Confirmed log_db host 2 t)
      (main log_db host two_writes fresh)
main-Confirmed_example =
    main-Confirmed log_db host two_writes write_args 1 two_writes-parsed refl refl fresh
