-- ===== src/Bench/Steps.antt =====
-- The steps that `main` of crates/bench/src/bin/datadir_bench.rs is made of and that need no host.
use Prim.Native.String.{String}
use reth_trie_rebuild_bench.Base.{
  ℕ, zero, suc, ◌+◌, ◌≡◌, Bool, true, false, Option, none, some, List, [], ◌∷◌, ◌++◌, ◌||◌,
}
use reth_trie_rebuild_bench.Trie.{B256, Node, digits_discrete}
use reth_trie_rebuild_bench.Alloc.{on_calls, reset_peak}
use reth_trie_rebuild_bench.Database.{TrieDb}
use reth_trie_rebuild_bench.Rebuild.{clear_trie_tables}
use reth_trie_rebuild_bench.Bench.Args.{Args}
use reth_trie_rebuild_bench.Bench.Host.{Label, Line, root_matches, root_mismatch, usage_is, Heap}
use reth_trie_rebuild_bench.Bench.Program.{
  exited, returned, Program, ◌>>=◌, pure, stop, println, expect,
}

unfoldable pub take : {A : Type 0} → ℕ → List A → List A
take zero xs = []
take (suc n) [] = []
take (suc n) (x ∷ xs) = x ∷ take n xs

-- `MdbxWriteSink::on_branch_node`, for the nodes in the order they were sent.
abbrev pub send : List Node → Node → List Node
send sent e = sent ++ e ∷ []

module _ (D : TrieDb) where
  abbrev pub Bench : Type 0 → Type 0
  Bench A = Program D.Db Line A

  -- `&db.tx().expect("read transaction")`
  unfoldable pub read_tx : Bench D.Tx
  read_tx s = expect (D.tx s.db) "read transaction" s

  unfoldable pub set_db : D.Db → Bench (Unit {0})
  set_db db s = returned tt (record s { db = db })

  -- `HEAP.reset_peak()`, and `HEAP.peak()` after the measured part.
  unfoldable pub reset_heap : Heap → Bench (Unit {0})
  reset_heap heap s = returned tt (record s { heap = reset_peak (on_calls s.heap heap.before) })

  unfoldable pub read_peak : Heap → Bench ℕ
  read_peak heap s =
      let after = on_calls s.heap heap.during in returned after.peak (record s { heap = after })

  -- The lines `printed`, the last one first.
  unfoldable pub print_all : List Line → Bench (Unit {0})
  print_all printed s = returned tt (record s { lines = printed ++ s.lines })

  unfoldable pub mismatch : Line → Bench (Unit {0})
  mismatch line = do _ ← println line; stop (exited 1)

  -- Whether two roots are equal decides between two lines.
  unfoldable pub report : {a b : B256} → Dec (a ≡ b) → Line → Line → Bench (Unit {0})
  report (yes _) matching mismatching = println matching
  report (no _) matching mismatching = mismatch mismatching

  unfoldable pub check_root : B256 → Option B256 → Label → Bench (Unit {0})
  check_root root none label = pure tt
  check_root root (some expected) label =
      report (digits_discrete root expected) (root_matches label) (root_mismatch label expected)

  unfoldable pub show_usage : String → Bench (Unit {0})
  show_usage message = do _ ← println (usage_is message); stop (exited 2)

  unfoldable pub clear_tables : Bench (Unit {0})
  clear_tables s = (do db ← expect (clear_trie_tables D s.db) "clear trie tables"; set_db db) s

  -- `for run in first..first + count`
  unfoldable pub runs : (ℕ → Bench (Unit {0})) → ℕ → ℕ → Bench (Unit {0})
  runs body zero first = pure tt
  runs body (suc count) first = do _ ← body first; runs body count (first + 1)

  unfoldable pub when : Bool → Bench (Unit {0}) → Bench (Unit {0})
  when true step = step
  when false step = pure tt

-- Whether the database is opened for writing.
unfoldable pub writes : Args → Bool
writes args = args.clear_trie_tables || args.reth_rebuild || args.write
