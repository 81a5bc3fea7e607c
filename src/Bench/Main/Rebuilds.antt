-- ===== src/Bench/Main/Rebuilds.antt =====
-- `--reth-rebuild`, as it leads from database to database or stops since something failed.
use reth_trie_rebuild_bench.Base.{◌≡◌, refl, ap, sym, ◌∙◌, Option, none, some}
use reth_trie_rebuild_bench.Base.Result.{ok}
use reth_trie_rebuild_bench.Alloc.Human.{human_bytes}
use reth_trie_rebuild_bench.Database.{TrieDb}
use reth_trie_rebuild_bench.Rebuild.Serial.{Rebuilt, Rebuild, reth_rebuild}
use reth_trie_rebuild_bench.Bench.Args.{Args}
use reth_trie_rebuild_bench.Bench.Host.{of_rebuild, Line, rebuilt, Host}
use reth_trie_rebuild_bench.Bench.Program.{Machine, ◌>>=◌, stop, expect}
use reth_trie_rebuild_bench.Bench.Main.{after_rebuild, rebuild_tables, rebuild_branch}
use reth_trie_rebuild_bench.Bench.Main.Failed.{
  no_rebuild, more_fuel, no_round, Computed, by_rebuild,
}
use reth_trie_rebuild_bench.Bench.Main.Works.{
  Works, >>=-Works, expect-Works, println-Works, print_all-Works, reset_heap-Works, read_peak-Works,
  set_db-Works, read_tx-Works, weaken, print_tip-Works, check_root-Works,
  check_written_tables-Works,
}

module _ (D : TrieDb) (H : Host D) (args : Args) where
  -- The rebuild of `before` left `db` and returned `done`.
  abbrev Rebuilds : D.Db → Rebuild D H.walk → D.Db → Type 0
  Rebuilds before o db = (reth_rebuild D H.walk none H.fuel before ≡ ok (some o)) × (o.db ≡ db)

  abbrev HasRebuilt : Rebuilt → D.Db → Type 0
  HasRebuilt done db =
      (before : D.Db) × (o : Rebuild D H.walk) × Rebuilds before o db × (o.result ≡ ok done)

  after_rebuild-Works :
      (before : D.Db) (end : Option (Rebuild D H.walk))
      → Works D H args
          (λ db. (reth_rebuild D H.walk none H.fuel before ≡ ok end) × (before ≡ db))
          HasRebuilt
          (after_rebuild D H end)
  unfolding after_rebuild stop
  after_rebuild-Works before none = record {
    ends = λ s (e, same). more_fuel (ap (reth_rebuild D H.walk none H.fuel) (sym same) ∙ e);
  }
  after_rebuild-Works before (some o) = >>=-Works (print_all-Works _) (λ _.
      >>=-Works (set_db-Works {W = λ _ db. Rebuilds before o db} o.db (λ old (e, same). (e, refl)))
        (λ _.
          weaken (λ db v. v) (λ done db (r, v). (before, o, v, r))
            (expect-Works o.result _
              (λ e db failed (rebuilds, left). no_round before o e rebuilds left failed))))

  rebuild_tables-Works : Works D H args (λ db. Unit {0}) HasRebuilt (rebuild_tables D H)
  unfolding rebuild_tables
  rebuild_tables-Works = record { ends = λ s v. (rebuilds s).ends s refl }
    where
      rebuilds :
          (s : Machine D.Db Line)
          → Works D H args
              (λ db. s.db ≡ db)
              HasRebuilt
              (expect (reth_rebuild D H.walk none H.fuel s.db) "reth rebuild" >>= after_rebuild D H)
      rebuilds s =
          >>=-Works
            (expect-Works (reth_rebuild D H.walk none H.fuel s.db) _ (λ e db failed same.
              no_rebuild e (ap (reth_rebuild D H.walk none H.fuel) (sym same) ∙ failed)))
            (λ end. after_rebuild-Works s.db end)

  HasRebuilt-Computed :
      (done : Rebuilt) (db : D.Db) → HasRebuilt done db → Computed D H args db done.root
  HasRebuilt-Computed done db (before, o, (rebuilds, left), r) =
      by_rebuild before o done rebuilds left r

  pub rebuild_branch-Works :
      Works D H args (λ db. Unit {0}) (λ _ db. Unit {0}) (rebuild_branch D H args.expected_root)
  unfolding rebuild_branch
  rebuild_branch-Works = >>=-Works read_tx-Works (λ tx. >>=-Works (print_tip-Works tx) (λ _.
      >>=-Works (reset_heap-Works _) (λ _. >>=-Works rebuild_tables-Works (λ done.
        >>=-Works (read_peak-Works _) (λ peak.
          >>=-Works (println-Works (rebuilt done (human_bytes peak))) (λ _.
            >>=-Works
              (check_root-Works done.root of_rebuild (λ db v. HasRebuilt-Computed done db v))
              (λ _. >>=-Works read_tx-Works (λ tx.
                weaken (λ db v. v) (λ _ db v. tt)
                  (check_written_tables-Works tx done.root
                    (λ db v. HasRebuilt-Computed done db v))))))))))
