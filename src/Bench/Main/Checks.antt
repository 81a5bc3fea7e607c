-- ===== src/Bench/Main/Checks.antt =====
-- The tip, the digest of the tables, reth's walk and its rebuild, as they lead from printed lines to
-- printed lines.
use reth_trie_rebuild_bench.Base.{ℕ, ◌≡◌, refl, Option, none, some, List, [], ◌∷◌}
use reth_trie_rebuild_bench.Alloc.Human.{human_bytes}
use reth_trie_rebuild_bench.Trie.{B256, digits_discrete}
use reth_trie_rebuild_bench.Database.{TrieDb}
use reth_trie_rebuild_bench.Rebuild.Serial.{Rebuild, reth_rebuild}
use reth_trie_rebuild_bench.Base.Result.{ok}
use reth_trie_rebuild_bench.Mdbx.{reth_serial_root}
use reth_trie_rebuild_bench.Bench.Host.{
  of_rebuild, Line, tip_is, rebuilt, tables_digested, walk_matches, walk_mismatch, Host,
}
use reth_trie_rebuild_bench.Bench.Program.{Machine, ◌>>=◌, stop, expect}
use reth_trie_rebuild_bench.Bench.Steps.{read_tx, print_all}
use reth_trie_rebuild_bench.Bench.Main.{
  print_tip, hashed_entries, print_trie_tables_digest, compare_walk, check_written_tables,
  after_rebuild, rebuild_tables, rebuild_branch,
}
use reth_trie_rebuild_bench.Bench.Main.Sound.{
  Truth, reading, Sound, wrong_walk, chunks-Sound, walk_matches-Sound,
}
use reth_trie_rebuild_bench.Bench.Main.Leads.{
  Leads, >>=-Leads, expect-Leads, known-Leads, opened-Leads, pure-Leads, read_tx-Leads,
  set_db-Leads, reset_heap-Leads, read_peak-Leads, say, show-Leads, report-Leads, check_root-Leads,
}

-- What reth's walk finds through a transaction on a database is what `truth` takes it to find.
abbrev pub IsWalked : (D : TrieDb) → Host D → Truth → Type 0
IsWalked D H truth =
    (db : D.Db) (tx : D.Tx) (root : B256)
    → D.tx db ≡ ok tx
    → reth_serial_root D H.state_root tx ≡ ok root
    → truth.walked root

module _ {D : TrieDb} {truth : Truth} (H : Host D) where
  pub print_tip-Leads :
      {k : ℕ} {pending : List B256} (tx : D.Tx)
      → Leads D truth (Sound truth k pending) (Sound truth k pending) (print_tip D H tx)
  unfolding print_tip reading
  print_tip-Leads tx = >>=-Leads (expect-Leads _ _) (λ block. say (tip_is block) refl)

  pub hashed_entries-Leads :
      {V : List Line → Type 0} (tx : D.Tx) → Leads D truth V V (hashed_entries D H tx)
  unfolding hashed_entries
  hashed_entries-Leads tx =
      >>=-Leads (expect-Leads _ _)
        (λ accounts. >>=-Leads (expect-Leads _ _) (λ storages. pure-Leads _))

  pub digest-Leads :
      {k : ℕ} {pending : List B256} (tx : D.Tx)
      → Leads D truth
          (Sound truth k pending)
          (Sound truth k pending)
          (print_trie_tables_digest D H tx)
  unfolding print_trie_tables_digest reading
  digest-Leads tx = >>=-Leads (expect-Leads _ _) (λ tables. say (tables_digested tables) refl)

  check_written_tables-Leads :
      {k : ℕ} (tx : D.Tx) (root : B256)
      → ((got : B256) → reth_serial_root D H.state_root tx ≡ ok got → truth.walked got)
      → Leads D truth
          (Sound truth k (root ∷ []))
          (Sound truth k [])
          (check_written_tables D H tx root)
  unfolding check_written_tables compare_walk
  check_written_tables-Leads {k} tx root found = >>=-Leads (digest-Leads tx) (λ _.
      known-Leads (reth_serial_root D H.state_root tx) _ (λ walked same.
        report-Leads (digits_discrete walked root) (walk_matches walked) (walk_mismatch walked root)
          (λ q lines v. walk_matches-Sound truth k walked root lines q (found walked same) v)
          (λ n lines v. wrong_walk walked root lines v.confirmed n (found walked same))))

  -- The check of the tables just written.
  pub read_check-Leads :
      {k : ℕ} (root : B256)
      → IsWalked D H truth
      → Leads D truth
          (Sound truth k (root ∷ []))
          (Sound truth k [])
          (read_tx D >>= (λ tx. check_written_tables D H tx root))
  read_check-Leads root walks =
      opened-Leads (λ db tx opened.
        check_written_tables-Leads tx root (λ got same. walks db tx got opened same))

  pub after_rebuild-Leads :
      {k : ℕ} (o : Option (Rebuild D H.walk))
      → Leads D truth (Sound truth k []) (Sound truth k []) (after_rebuild D H o)
  unfolding after_rebuild print_all stop
  after_rebuild-Leads none = record { ends = λ s v. tt }
  after_rebuild-Leads {k} (some o) =
      >>=-Leads (record { ends = λ s v. chunks-Sound truth k [] o.log s.lines v })
        (λ _. >>=-Leads (set_db-Leads o.db) (λ _. expect-Leads o.result _))

  pub rebuild_tables-Leads :
      {k : ℕ} → Leads D truth (Sound truth k []) (Sound truth k []) (rebuild_tables D H)
  unfolding rebuild_tables
  rebuild_tables-Leads {k} = record { ends = λ s v. (rebuilt-Leads s).ends s v }
    where
      rebuilt-Leads :
          (s : Machine D.Db Line)
          → Leads D truth
              (Sound truth k [])
              (Sound truth k [])
              (expect (reth_rebuild D H.walk none H.fuel s.db) "reth rebuild" >>= after_rebuild D H)
      rebuilt-Leads s = >>=-Leads (expect-Leads _ _) after_rebuild-Leads

  pub rebuild_branch-Leads :
      {k : ℕ} (e : Option B256)
      → IsWalked D H truth
      → e ≡ truth.expected
      → Leads D truth (Sound truth k []) (Sound truth k []) (rebuild_branch D H e)
  unfolding rebuild_branch reading
  rebuild_branch-Leads e walks same = >>=-Leads read_tx-Leads (λ tx.
      >>=-Leads (print_tip-Leads tx) (λ _. >>=-Leads (reset_heap-Leads _) (λ _.
        >>=-Leads rebuild_tables-Leads (λ done. >>=-Leads (read_peak-Leads _) (λ peak.
          >>=-Leads (show-Leads (rebuilt done (human_bytes peak))) (λ _.
            >>=-Leads (check_root-Leads (some done.root) none done.root e of_rebuild same refl refl)
              (λ _. read_check-Leads done.root walks)))))))
