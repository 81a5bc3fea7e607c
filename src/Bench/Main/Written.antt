-- ===== src/Bench/Main/Written.antt =====
-- What `--write` leaves in the trie tables.
use Prim.Native.String.{String}
use reth_trie_rebuild_bench.Base.{
  ℕ, zero, suc, ◌+◌, ◌≡◌, refl, ap, sym, ◌∙◌, Bool, true, false, List, [], arith,
}
use reth_trie_rebuild_bench.Base.Result.{ok}
use reth_trie_rebuild_bench.Alloc.Human.{human_bytes}
use reth_trie_rebuild_bench.Trie.{B256, Node}
use reth_trie_rebuild_bench.Database.{TrieDb, IsTrieDb}
use reth_trie_rebuild_bench.Rebuild.{clear_trie_tables}
use reth_trie_rebuild_bench.Rebuild.Clear.{clear_trie_tables-empty}
use reth_trie_rebuild_bench.Writer.{Written, Outcome, write_sink}
use reth_trie_rebuild_bench.Bench.Args.{Args, parsed, parse_args}
use reth_trie_rebuild_bench.Bench.Host.{
  of_run, Line, trie_tables_cleared, threads_are, hashed_entries_are, run_written, Build, Host,
}
use reth_trie_rebuild_bench.Bench.Program.{Machine, expect}
use reth_trie_rebuild_bench.Bench.Triple.{Ends}
use reth_trie_rebuild_bench.Bench.Steps.{Bench, runs, when, send}
use reth_trie_rebuild_bench.Bench.Main.{
  sink_of, received_of, run_writer, write_build, write_run, write_branch, clear_branch, change,
  run_args, run_parsed, main,
}
use reth_trie_rebuild_bench.Bench.Main.Sent.{nodes_of, on_events-inner}
use reth_trie_rebuild_bench.Bench.Main.Failed.{
  Failed, no_runtime, no_database, no_build, no_writer, no_commit, by_build,
}
use reth_trie_rebuild_bench.Bench.Main.Works.{
  Works, >>=-Works, expect-Works, pure-Works, println-Works, print_all-Works, reset_heap-Works,
  read_peak-Works, set_db-Works, read_tx-Works, weaken, print_tip-Works, hashed_entries-Works,
  check_root-Works, check_written_tables-Works, clear_tables-Works, when-Works,
}
use reth_trie_rebuild_bench.Bench.Main.Left.{
  writes-write, IsCleared, Left, write_sink-Left, SendsStored,
}
use reth_trie_rebuild_bench.Bench.Main.Rebuilds.{rebuild_branch-Works}

module _ (D : TrieDb) (L : IsTrieDb D) (H : Host D) (args : Args) where
  open L use {db_at}

  -- The writer of a run was started on the tables of `before`, and left `db`.
  abbrev Wrote : D.Db → List Node → Outcome D → D.Db → Type 0
  Wrote before sent o db = (write_sink D args.chunk_nodes before sent ≡ ok o) × (o.db ≡ db)

  run_writer-Works :
      (before : D.Db) (sent : List Node)
      → Works D H args
          (λ db. before ≡ db)
          (λ o db. write_sink D args.chunk_nodes before sent ≡ ok o)
          (run_writer D H args.chunk_nodes sent)
  unfolding run_writer
  run_writer-Works before sent = record { ends = λ s same. (started s same).ends s same }
    where
      started :
          (s : Machine D.Db Line)
          → before ≡ s.db
          → Works D H args
              (λ db. before ≡ db)
              (λ o db. write_sink D args.chunk_nodes before sent ≡ ok o)
              (expect (write_sink D args.chunk_nodes s.db sent) "writer")
      started s same =
          weaken (λ db v. v)
            (λ o db (e, v). ap (λ t. write_sink D args.chunk_nodes t sent) same ∙ e)
            (expect-Works (write_sink D args.chunk_nodes s.db sent) _ (λ e db failed v.
              no_writer sent e
                (ap (λ t. write_sink D args.chunk_nodes t sent) (sym v ∙ same) ∙ failed)))

  received_of-ok :
      (b : Build D) (sent : List Node) (root : B256)
      → b.result ≡ ok root
      → received_of D H b sent ≡ sent
  received_of-ok b sent root e = rw e refl

  write_build-Works :
      (k entries : ℕ) (before : D.Db)
      → SendsStored D L H args
      → IsCleared D L H args before
      → Works D H args
          (λ db. before ≡ db)
          (λ _ db. Left D L H args (suc k) db)
          (write_build D H args entries (suc k) (H.build (suc k) before))
  unfolding write_build
  write_build-Works k entries before sends cleared =
      let b = H.build (suc k) before in
      let sink = sink_of D H send [] entries b in
      let sent = received_of D H b sink.inner in
      >>=-Works (reset_heap-Works _) (λ _. >>=-Works (run_writer-Works before sent) (λ o.
        >>=-Works (print_all-Works _) (λ _.
          >>=-Works (set_db-Works {W = λ _ db. Wrote before sent o db} o.db (λ old e. (e, refl)))
            (λ _.
              >>=-Works
                (expect-Works b.result _
                  (λ e db failed (wrote, left). no_build (suc k) before sent o e wrote left failed))
                (λ root.
                  >>=-Works
                    (expect-Works o.result _ (λ e db failed (_, (wrote, left)).
                      no_commit before sent o e wrote left failed))
                    (λ written. >>=-Works (read_peak-Works _) (λ peak.
                      >>=-Works
                        (println-Works
                          (run_written (suc k) root sink.walked written (human_bytes peak)))
                        (λ _.
                          >>=-Works
                            (check_root-Works root (of_run (suc k)) (λ db (_, (e, (wrote, left))).
                              by_build (suc k) before sent o root wrote left e))
                            (λ _. >>=-Works read_tx-Works (λ tx.
                              weaken (λ db v. v)
                                (λ _ db (r, (e, (wrote, left))).
                                  all_left o root written r e wrote left)
                                (check_written_tables-Works tx root (λ db (_, (e, (wrote, left))).
                                  by_build (suc k) before sent o root wrote left e))))))))))))
    where
      all_left :
          {db : D.Db} (o : Outcome D) (root : B256) (written : Written)
          → o.result ≡ ok written
          → (H.build (suc k) before).result ≡ ok root
          → write_sink D args.chunk_nodes before (
              received_of D H
                (H.build (suc k) before)
                (sink_of D H send [] entries (H.build (suc k) before)).inner)
            ≡ ok o
          → o.db ≡ db
          → Left D L H args (suc k) db
      all_left o root written r e wrote left =
          let b = H.build (suc k) before in
          let sink = sink_of D H send [] entries b in
          let all : received_of D H b sink.inner ≡ nodes_of b.events =
            received_of-ok b sink.inner root e ∙ on_events-inner _ b.events in
          let (tx, packed, opened, settings, rows) =
            write_sink-Left D L H args before (nodes_of b.events) o written cleared
              (sends.stored (suc k) before) (sends.distinct (suc k) before)
              (ap (write_sink D args.chunk_nodes before) (sym all) ∙ wrote) r in
          (
            before,
            tx,
            packed,
            cleared,
            opened,
            settings,
            λ a p. ap (λ t. db_at packed t a p) (sym left) ∙ rows a p,
          )

  write_run-Works :
      (k entries : ℕ)
      → SendsStored D L H args
      → Works D H args
          (Left D L H args k)
          (λ _ db. Left D L H args (suc k) db)
          (write_run D H args entries (suc k))
  unfolding write_run
  write_run-Works k entries sends = >>=-Works clear_tables-Works (λ _. record {
    ends = λ s (old, e).
        (write_build-Works k entries s.db sends (λ packed. clear_tables_lem old s.db e packed)).ends
          s refl;
  })
    where
      clear_tables_lem : (old db : D.Db) → clear_trie_tables D old ≡ ok db → IsCleared D L H args db
      clear_tables_lem old db e packed = clear_trie_tables-empty D L packed old db e

  runs-Works :
      (body : ℕ → Bench D (Unit {0})) (count k n : ℕ)
      → k + count ≡ n
      → ((k : ℕ)
          → Works D H args (Left D L H args k) (λ _ db. Left D L H args (suc k) db) (body (suc k)))
      → Works D H args
          (Left D L H args k)
          (λ _ db. Left D L H args n db)
          (runs D body count (suc k))
  unfolding runs
  runs-Works body zero k n e h =
      let done : k ≡ n = omega (arith, e) in rw (← done) (pure-Works {V = Left D L H args k} tt)
  runs-Works body (suc count) k n e h =
      let left : suc k + count ≡ n = omega (arith, e) in
      let next : suc k + 1 ≡ suc (suc k) = omega arith in
      >>=-Works (h k) (λ _. rw next (runs-Works body count (suc k) n left h))

  write_branch-Works :
      (cpus : ℕ)
      → SendsStored D L H args
      → Works D H args
          (Left D L H args 0)
          (λ _ db. Left D L H args args.repeat db)
          (write_branch D H args cpus)
  unfolding write_branch
  write_branch-Works cpus sends = >>=-Works read_tx-Works (λ tx.
      >>=-Works (print_tip-Works tx) (λ _. >>=-Works (println-Works (threads_are cpus)) (λ _.
        >>=-Works read_tx-Works (λ tx. >>=-Works (hashed_entries-Works tx) (λ entries.
          >>=-Works (println-Works (hashed_entries_are entries)) (λ _.
            runs-Works (write_run D H args entries) args.repeat 0 args.repeat (omega arith)
              (λ k. write_run-Works k entries sends)))))))

  clear_branch-Works :
      Works D H args (Left D L H args 0) (λ _ db. Left D L H args 0 db) (clear_branch D H)
  unfolding clear_branch
  clear_branch-Works = >>=-Works clear_tables-Works (λ _.
      weaken (λ db v. tt) (λ _ db v. tt)
        (println-Works {V = Left D L H args 0} trie_tables_cleared))

  when-true-Works :
      {V : D.Db → Type 0} {W : Unit {0} → D.Db → Type 0} (b : Bool) (m : Bench D (Unit {0}))
      → b ≡ true
      → Works D H args V W m
      → Works D H args V W (when D b m)
  unfolding when
  when-true-Works true m e h = h
  when-true-Works false m e h = absurd (cc)

  run_args-Works :
      args.write ≡ true
      → SendsStored D L H args
      → Works D H args
          (Left D L H args 0)
          (λ _ db. Left D L H args args.repeat db)
          (run_args D H args)
  unfolding run_args change
  run_args-Works writing sends =
      >>=-Works (expect-Works (H.cpu_threads args.threads) _ (λ e db failed v. no_runtime e failed))
        (λ cpus. rw (writes-write args writing) (
          >>=-Works
            (expect-Works (H.open_db args.datadir) _ (λ e db failed v. no_database e failed))
            (λ _.
              >>=-Works
                (weaken (λ db v. tt) (λ _ db v. v)
                  (when-Works args.clear_trie_tables _ clear_branch-Works))
                (λ _.
                  >>=-Works (when-Works args.reth_rebuild _ (rebuild_branch-Works D H args))
                    (λ _. when-true-Works args.write _ writing (write_branch-Works cpus sends))))))

  -- With `--write`, however the host behaves: the program stops only if something has failed, which
  -- is then one of the failures named. Otherwise it returns, and the trie tables have exactly the
  -- nodes that the last run's build sent. Every build's nodes have different places, and none is the
  -- root of a trie.
  pub main-Left :
      (argv : List String)
      → parse_args H.parse_root argv ≡ parsed args
      → args.write ≡ true
      → SendsStored D L H args
      → (s : Machine D.Db Line)
      → Ends
          (λ why t. Failed D H args t.db)
          (λ _ t. Left D L H args args.repeat t.db)
          (main D H argv s)
  unfolding main run_parsed
  main-Left argv e writing sends s = rw e ((run_args-Works writing sends).ends s tt)
