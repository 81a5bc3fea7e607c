-- ===== src/Bench/Main/Confirmed.antt =====
-- With `--write`: what reth's walk finds in the tables as the program leaves them.
use Prim.Native.String.{String}
use reth_trie_rebuild_bench.Base.{
  ℕ, zero, suc, ◌+◌, ◌≡◌, refl, subst, sym, ◌∙◌, true, Bool, true, false, List, ◌∷◌, arith,
}
use reth_trie_rebuild_bench.Base.Result.{Result, ok}
use reth_trie_rebuild_bench.Trie.{B256, digits_discrete}
use reth_trie_rebuild_bench.Database.{TrieDb}
use reth_trie_rebuild_bench.Mdbx.{reth_serial_root}
use reth_trie_rebuild_bench.Tables.{digest_trie_tables}
use reth_trie_rebuild_bench.Bench.Args.{Args, parsed, parse_args}
use reth_trie_rebuild_bench.Bench.Host.{Line, tables_digested, walk_matches, walk_mismatch, Host}
use reth_trie_rebuild_bench.Bench.Program.{
  Status, Machine, Flow, returned, stopped, and_then, ◌>>=◌, stop, println, expect,
}
use reth_trie_rebuild_bench.Bench.Triple.{
  Ends, Triple, >>=-Triple, pure-Triple, println-Triple, expect-Triple,
}
use reth_trie_rebuild_bench.Bench.Steps.{Bench, read_tx, mismatch, report, runs, when}
use reth_trie_rebuild_bench.Bench.Main.Left.{writes-write}
use reth_trie_rebuild_bench.Bench.Main.{
  print_trie_tables_digest, compare_walk, check_written_tables, write_build, write_run,
  write_branch, change, run_args, run_parsed, main,
}

module _ (D : TrieDb) (H : Host D) where
  -- The last line says that reth's walk, through a transaction on the database as it is, has found
  -- the root.
  abbrev pub Found : B256 → Machine D.Db Line → Type 0
  Found root t =
      ((tx : D.Tx) × (D.tx t.db ≡ ok tx) × (reth_serial_root D H.state_root tx ≡ ok root))
      × ((rest : List Line) × (t.lines ≡ walk_matches root ∷ rest))

  -- And it is the root of a build of the run.
  abbrev pub Confirmed : ℕ → Machine D.Db Line → Type 0
  Confirmed run t =
      (root : B256) × Found root t × ((db : D.Db) × ((H.build run db).result ≡ ok root))

  -- A stop is no concern here.
  abbrev pub Stopped : Status → Machine D.Db Line → Type 0
  Stopped why t = Unit {0}

  abbrev Any : Machine D.Db Line → Type 0
  Any s = Unit {0}

  anyhow : {A : Type 0} (m : Bench D A) → Triple Stopped Any (λ a s. Unit {0}) m
  anyhow m = record { ends = λ s p. ended (m s) }
    where
      ended : {A : Type 0} (f : Flow D.Db Line A) → Ends Stopped (λ a s. Unit {0}) f
      ended (returned a s) = tt
      ended (stopped why s) = tt

  then_ends :
      {A B : Type 0} {R : B → Machine D.Db Line → Type 0} (m : Bench D A) {next : A → Bench D B}
      → ((a : A) → Triple Stopped Any R (next a))
      → Triple Stopped Any R (m >>= next)
  then_ends m h = >>=-Triple (anyhow m) h

  known :
      {F A B : Type 0} {P : Machine D.Db Line → Type 0} {R : B → Machine D.Db Line → Type 0}
      (result : Result F A) (message : String) {next : A → Bench D B}
      → ((a : A) → result ≡ ok a → Triple Stopped P R (next a))
      → Triple Stopped P R (expect result message >>= next)
  known {F} {A} {B} {P} {R} result message h =
      >>=-Triple {R = λ a s. P s × (result ≡ ok a)}
        (expect-Triple result message (λ a e s p. (p, e)) (λ f e s p. tt))
        (λ a. record { ends = λ s (p, e). (h a e).ends s p })

  opened : Triple Stopped Any (λ tx s. D.tx s.db ≡ ok tx) (read_tx D)
  unfolding read_tx
  opened = record {
    ends = λ s p.
        (expect-Triple {E = Stopped} {P = λ t. D.tx t.db ≡ D.tx s.db}
            {R = λ tx t. D.tx t.db ≡ ok tx} (D.tx s.db) "read transaction" (λ a e t q. q ∙ e)
            (λ f e t q. tt)).ends
          s refl;
  }

  digest_keeps :
      (tx : D.Tx)
      → Triple Stopped
          (λ s. D.tx s.db ≡ ok tx)
          (λ a s. D.tx s.db ≡ ok tx)
          (print_trie_tables_digest D H tx)
  unfolding print_trie_tables_digest
  digest_keeps tx =
      known (digest_trie_tables D H.tables H.hashing tx) "digest trie tables"
        (λ tables e. println-Triple (tables_digested tables) (λ s p. p))

  report-Found :
      (tx : D.Tx) (walked root : B256) (same : Dec (walked ≡ root))
      → reth_serial_root D H.state_root tx ≡ ok walked
      → Triple Stopped
          (λ s. D.tx s.db ≡ ok tx)
          (λ a s. Found root s)
          (report D same (walk_matches walked) (walk_mismatch walked root))
  unfolding report mismatch println stop ◌>>=◌ and_then
  report-Found tx walked root (yes e) found = record {
    ends = λ s p. (
      (tx, p, subst (λ r. reth_serial_root D H.state_root tx ≡ ok r) e found),
      (s.lines, subst (λ r. walk_matches walked ∷ s.lines ≡ walk_matches r ∷ s.lines) e refl),
    );
  }
  report-Found tx walked root (no n) found = record { ends = λ s p. tt }

  check-Found :
      (root : B256)
      → Triple Stopped Any
          (λ a s. Found root s)
          (read_tx D >>= (λ tx. check_written_tables D H tx root))
  unfolding check_written_tables compare_walk
  check-Found root = >>=-Triple opened (λ tx. >>=-Triple (digest_keeps tx) (λ _.
      known (reth_serial_root D H.state_root tx) "reth StateRoot over written tables"
        (λ walked found. report-Found tx walked root (digits_discrete walked root) found)))

  write_build-Confirmed :
      (args : Args) (entries run : ℕ) (db : D.Db)
      → Triple Stopped Any
          (λ a s. Confirmed run s)
          (write_build D H args entries run (H.build run db))
  unfolding write_build
  write_build-Confirmed args entries run db = then_ends _ (λ _. then_ends _ (λ outcome.
      then_ends _ (λ _. then_ends _ (λ _. known (H.build run db).result "state root" (λ root e.
        then_ends _ (λ written. then_ends _ (λ peak.
          then_ends _ (λ _. then_ends _ (λ _. record { ends = λ s p. confirmed root e s })))))))))
    where
      weaken :
          (root : B256)
          → (H.build run db).result ≡ ok root
          → (f : Flow D.Db Line (Unit {0})) → Ends Stopped (λ a t. Found root t) f
          → Ends Stopped (λ a t. Confirmed run t) f
      weaken root e (returned a t) h = (root, h, (db, e))
      weaken root e (stopped why t) h = tt

      confirmed :
          (root : B256)
          → (H.build run db).result ≡ ok root
          → (s : Machine D.Db Line)
          → Ends Stopped
              (λ a t. Confirmed run t)
              ((read_tx D >>= (λ tx. check_written_tables D H tx root)) s)
      confirmed root e s = weaken root e _ ((check-Found root).ends s tt)

  write_run-Confirmed :
      (args : Args) (entries run : ℕ)
      → Triple Stopped Any (λ a s. Confirmed run s) (write_run D H args entries run)
  unfolding write_run
  write_run-Confirmed args entries run =
      then_ends _
        (λ _. record { ends = λ s p. (write_build-Confirmed args entries run s.db).ends s p })

  -- Of runs one after another, the last one leaves it so.
  runs-Confirmed :
      (body : ℕ → Bench D (Unit {0})) (count first last : ℕ)
      → first + count ≡ last
      → ((run : ℕ) → Triple Stopped Any (λ a s. Confirmed run s) (body run))
      → Triple Stopped Any (λ a s. Confirmed last s) (runs D body (suc count) first)
  unfolding runs
  runs-Confirmed body zero first last e h =
      let same : first ≡ last = omega (arith, e) in
      >>=-Triple (h first)
        (λ _. pure-Triple tt (λ s p. subst (λ (run : ℕ). Confirmed run s) same p))
  runs-Confirmed body (suc count) first last e h =
      then_ends (body first) (λ _. runs-Confirmed body count (first + 1) last (omega (arith, e)) h)

  write_branch-Confirmed :
      (args : Args) (cpus more : ℕ)
      → args.repeat ≡ suc more
      → Triple Stopped Any (λ a s. Confirmed args.repeat s) (write_branch D H args cpus)
  unfolding write_branch
  write_branch-Confirmed args cpus more e = then_ends _ (λ tx. then_ends _ (λ _. then_ends _ (λ _.
      then_ends _ (λ tx. then_ends _ (λ entries. then_ends _ (λ _.
        subst
          (λ (count : ℕ).
            Triple Stopped Any (λ a s. Confirmed args.repeat s)
              (runs D (write_run D H args entries) count 1))
          (sym e)
          (runs-Confirmed (write_run D H args entries) more 1 args.repeat (omega (arith, e))
            (write_run-Confirmed args entries))))))))

  when-true :
      {R : Unit {0} → Machine D.Db Line → Type 0} (b : Bool) (m : Bench D (Unit {0}))
      → b ≡ true
      → Triple Stopped Any R m
      → Triple Stopped Any R (when D b m)
  unfolding when
  when-true true m e h = h
  when-true false m e h = absurd (cc)

  run_args-Confirmed :
      (args : Args) (more : ℕ)
      → args.write ≡ true
      → args.repeat ≡ suc more
      → Triple Stopped Any (λ a s. Confirmed args.repeat s) (run_args D H args)
  unfolding run_args change
  run_args-Confirmed args more writing e = then_ends _ (λ cpus. rw (writes-write args writing) (
      then_ends _ (λ _. then_ends _ (λ _.
        then_ends _
          (λ _. when-true args.write _ writing (write_branch-Confirmed args cpus more e))))))

  -- With `--write` and at least one run, however the host behaves: if the program returns, its last
  -- line says that reth's walk, through a transaction on the database as the program leaves it, has
  -- found the root that a build of the last run has returned.
  pub main-Confirmed :
      (argv : List String) (args : Args) (more : ℕ)
      → parse_args H.parse_root argv ≡ parsed args
      → args.write ≡ true
      → args.repeat ≡ suc more
      → (s : Machine D.Db Line) → Ends Stopped (λ _ t. Confirmed args.repeat t) (main D H argv s)
  unfolding main run_parsed
  main-Confirmed argv args more e writing some_runs s =
      rw e ((run_args-Confirmed args more writing some_runs).ends s tt)
