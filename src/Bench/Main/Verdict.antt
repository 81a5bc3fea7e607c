-- ===== src/Bench/Main/Verdict.antt =====
-- The verdict of the program of crates/bench/src/bin/datadir_bench.rs: its exit status and its lines.
use Prim.Native.String.{String}
use reth_trie_rebuild_bench.Base.{◌≡◌, Option, [], ◌∷◌}
use reth_trie_rebuild_bench.Base.Result.{ok}
use reth_trie_rebuild_bench.Trie.{B256}
use reth_trie_rebuild_bench.Mdbx.{reth_serial_root}
use reth_trie_rebuild_bench.Database.{TrieDb}
use reth_trie_rebuild_bench.Bench.Args.{Parsed, parsed, usage}
use reth_trie_rebuild_bench.Bench.Host.{Line, usage_is, Host}
use reth_trie_rebuild_bench.Bench.Program.{exited, Machine, Flow, stopped}
use reth_trie_rebuild_bench.Bench.Triple.{Ends}
use reth_trie_rebuild_bench.Bench.Main.Sound.{Truth, Sound}
use reth_trie_rebuild_bench.Bench.Main.Leads.{Stops}
use reth_trie_rebuild_bench.Bench.Main.Branches.{runs_asked}

-- What the lines of a run of the program are judged by: the root of its command line, and what
-- reth's walk finds through some transaction on a database.
abbrev pub truth_of : (D : TrieDb) → Host D → Option B256 → Truth
truth_of D H expected = record {
  expected = expected;
  walked = λ root.
      (db : D.Db) × (tx : D.Tx) × (D.tx db ≡ ok tx)
      × (reth_serial_root D H.state_root tx ≡ ok root);
}

-- What the parsed command line makes of the program's end, from a machine that has printed nothing.
-- A usage error exits with status 2 after its message. Otherwise, if the program exits, it is with
-- status 1, and its last line is a mismatch that is one; and if it returns, its lines are sound.
abbrev pub Verdict :
    (D : TrieDb) → Host D → Machine D.Db Line → Parsed → Flow D.Db Line (Unit {0}) → Type 0
Verdict D H s (usage message) end =
    end ≡ stopped (exited 2) (record s { lines = usage_is message ∷ [] })
Verdict D H s (parsed args) end =
    let truth = truth_of D H args.expected_root in
    Ends (Stops D truth) (λ _ t. Sound truth (runs_asked args) [] t.lines) end
