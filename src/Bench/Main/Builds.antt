-- ===== src/Bench/Main/Builds.antt =====
-- The runs of the build, as they lead from printed lines to printed lines.
use reth_trie_rebuild_bench.Base.{ℕ, zero, suc, ◌+◌, ◌≡◌, refl, none, some, List, [], arith}
use reth_trie_rebuild_bench.Alloc.Human.{human_bytes}
use reth_trie_rebuild_bench.Trie.{Node}
use reth_trie_rebuild_bench.Database.{TrieDb}
use reth_trie_rebuild_bench.Writer.{write_sink}
use reth_trie_rebuild_bench.Bench.Args.{Args}
use reth_trie_rebuild_bench.Bench.Host.{Line, run_written, run_digested, Build, Host}
use reth_trie_rebuild_bench.Bench.Steps.{Bench, print_all, runs}
use reth_trie_rebuild_bench.Bench.Main.{
  run_writer, write_build, write_run, digest_build, digest_run,
}
use reth_trie_rebuild_bench.Bench.Main.Sound.{Truth, reading, Sound, progress-Sound}
use reth_trie_rebuild_bench.Bench.Main.Leads.{
  Leads, >>=-Leads, expect-Leads, pure-Leads, set_db-Leads, reset_heap-Leads, read_peak-Leads,
  clear_tables-Leads, show-Leads, check_root-Leads,
}
use reth_trie_rebuild_bench.Bench.Main.Checks.{IsWalked, read_check-Leads}

module _ {D : TrieDb} {truth : Truth} (H : Host D) where
  run_writer-Leads :
      {V : List Line → Type 0} (chunk_nodes : ℕ) (sent : List Node)
      → Leads D truth V V (run_writer D H chunk_nodes sent)
  unfolding run_writer
  run_writer-Leads chunk_nodes sent = record {
    ends = λ s v. (expect-Leads {D = D} (write_sink D chunk_nodes s.db sent) _).ends s v;
  }

  pub write_build-Leads :
      {k : ℕ} (args : Args) (entries : ℕ) (b : Build D)
      → IsWalked D H truth
      → args.expected_root ≡ truth.expected
      → Leads D truth
          (Sound truth k [])
          (Sound truth (suc k) [])
          (write_build D H args entries (suc k) b)
  unfolding write_build print_all reading
  write_build-Leads {k} args entries b walks same = >>=-Leads (reset_heap-Leads _) (λ _.
      >>=-Leads (run_writer-Leads _ _) (λ outcome.
        >>=-Leads (record { ends = λ s v. progress-Sound truth k [] _ s.lines v })
          (λ _. >>=-Leads (set_db-Leads outcome.db) (λ _.
            >>=-Leads (expect-Leads b.result _) (λ root.
              >>=-Leads (expect-Leads outcome.result _) (λ written.
                >>=-Leads (read_peak-Leads _) (λ peak.
                  >>=-Leads (show-Leads (run_written (suc k) root _ written (human_bytes peak)))
                    (λ _.
                      >>=-Leads
                        (check_root-Leads (some root) (some (suc k)) root args.expected_root _ same
                          refl (refl, refl))
                        (λ _. read_check-Leads H root walks)))))))))

  pub digest_build-Leads :
      {k : ℕ} (args : Args) (entries : ℕ) (b : Build D)
      → args.expected_root ≡ truth.expected
      → Leads D truth
          (Sound truth k [])
          (Sound truth (suc k) [])
          (digest_build D H args entries (suc k) b)
  unfolding digest_build print_all reading
  digest_build-Leads {k} args entries b same = >>=-Leads (reset_heap-Leads _) (λ _.
      >>=-Leads (record { ends = λ s v. progress-Sound truth k [] _ s.lines v })
        (λ _. >>=-Leads (expect-Leads b.result _) (λ root. >>=-Leads (read_peak-Leads _) (λ peak.
          >>=-Leads (show-Leads (run_digested (suc k) root _ _ (human_bytes peak))) (λ _.
            check_root-Leads none (some (suc k)) root args.expected_root _ same refl
              (refl, refl))))))

  pub write_run-Leads :
      {k : ℕ} (args : Args) (entries : ℕ)
      → IsWalked D H truth
      → args.expected_root ≡ truth.expected
      → Leads D truth
          (Sound truth k [])
          (Sound truth (suc k) [])
          (write_run D H args entries (suc k))
  unfolding write_run
  write_run-Leads {k} args entries walks same = >>=-Leads clear_tables-Leads (λ _. record {
    ends = λ s v. (write_build-Leads args entries (H.build (suc k) s.db) walks same).ends s v;
  })

  pub digest_run-Leads :
      {k : ℕ} (args : Args) (entries : ℕ)
      → args.expected_root ≡ truth.expected
      → Leads D truth
          (Sound truth k [])
          (Sound truth (suc k) [])
          (digest_run D H args entries (suc k))
  unfolding digest_run
  digest_run-Leads {k} args entries same = record {
    ends = λ s v. (digest_build-Leads args entries (H.build (suc k) s.db) same).ends s v;
  }

  pub runs-Leads :
      (body : ℕ → Bench D (Unit {0})) (count k n : ℕ)
      → k + count ≡ n
      → ((k : ℕ) → Leads D truth (Sound truth k []) (Sound truth (suc k) []) (body (suc k)))
      → Leads D truth (Sound truth k []) (Sound truth n []) (runs D body count (suc k))
  unfolding runs
  runs-Leads body zero k n e h = let done : k ≡ n = omega (arith, e) in rw (← done) (pure-Leads tt)
  runs-Leads body (suc count) k n e h =
      let left : suc k + count ≡ n = omega (arith, e) in
      let next : suc k + 1 ≡ suc (suc k) = omega arith in
      >>=-Leads (h k) (λ _. rw next (runs-Leads body count (suc k) n left h))
