-- ===== src/Bench/Main/Branches.antt =====
-- The branches of `main`, as they lead from printed lines to printed lines.
use reth_trie_rebuild_bench.Base.{
  ℕ, ◌≡◌, refl, Bool, true, false, Option, none, [], if◌then◌else◌, arith,
}
use reth_trie_rebuild_bench.Alloc.Human.{human_bytes}
use reth_trie_rebuild_bench.Trie.{B256}
use reth_trie_rebuild_bench.Database.{TrieDb}
use reth_trie_rebuild_bench.Bench.Args.{Args}
use reth_trie_rebuild_bench.Bench.Host.{
  of_serial, trie_tables_cleared, threads_are, hashed_entries_are, serial_root, Host,
}
use reth_trie_rebuild_bench.Bench.Steps.{when, writes}
use reth_trie_rebuild_bench.Bench.Main.{
  print_trie_tables_digest, write_run, write_branch, clear_branch, change, serial_branch,
  digest_run, digest_branch, read_branch, measure, run_args,
}
use reth_trie_rebuild_bench.Bench.Main.Sound.{Truth, reading, Sound}
use reth_trie_rebuild_bench.Bench.Main.Leads.{
  Leads, >>=-Leads, expect-Leads, pure-Leads, read_tx-Leads, reset_heap-Leads, read_peak-Leads,
  clear_tables-Leads, when-Leads, say, show-Leads, check_root-Leads,
}
use reth_trie_rebuild_bench.Bench.Main.Checks.{
  IsWalked, print_tip-Leads, hashed_entries-Leads, digest-Leads, rebuild_branch-Leads,
}
use reth_trie_rebuild_bench.Bench.Main.Builds.{write_run-Leads, digest_run-Leads, runs-Leads}

-- The runs of `measure`, and of the program.
abbrev pub runs_read : Args → ℕ
runs_read args =
    if args.digest_trie_tables then 0 else (if args.reth_serial then 0 else args.repeat)

abbrev pub runs_asked : Args → ℕ
runs_asked args = if writes args then (if args.write then args.repeat else 0) else runs_read args

module _ (D : TrieDb) (truth : Truth) (H : Host D) where
  pub write_branch-Leads :
      (args : Args) (cpus : ℕ)
      → IsWalked D H truth
      → args.expected_root ≡ truth.expected
      → Leads D truth (Sound truth 0 []) (Sound truth args.repeat []) (write_branch D H args cpus)
  unfolding write_branch reading
  write_branch-Leads args cpus walks same = >>=-Leads read_tx-Leads (λ tx.
      >>=-Leads (print_tip-Leads H tx) (λ _. >>=-Leads (say (threads_are cpus) refl) (λ _.
        >>=-Leads read_tx-Leads (λ tx. >>=-Leads (hashed_entries-Leads H tx) (λ entries.
          >>=-Leads (say (hashed_entries_are entries) refl) (λ _.
            runs-Leads H (write_run D H args entries) args.repeat 0 args.repeat (omega arith)
              (λ k. write_run-Leads H args entries walks same)))))))

  pub clear_branch-Leads : Leads D truth (Sound truth 0 []) (Sound truth 0 []) (clear_branch D H)
  unfolding clear_branch reading
  clear_branch-Leads = >>=-Leads clear_tables-Leads (λ _. say trie_tables_cleared refl)

  pub digest_branch-Leads :
      (args : Args) (tx : D.Tx)
      → args.expected_root ≡ truth.expected
      → Leads D truth (Sound truth 0 []) (Sound truth args.repeat []) (digest_branch D H args tx)
  unfolding digest_branch reading
  digest_branch-Leads args tx same = >>=-Leads (hashed_entries-Leads H tx) (λ entries.
      >>=-Leads (say (hashed_entries_are entries) refl) (λ _.
        runs-Leads H (digest_run D H args entries) args.repeat 0 args.repeat (omega arith)
          (λ k. digest_run-Leads H args entries same)))

  pub serial_branch-Leads :
      (e : Option B256) (tx : D.Tx)
      → e ≡ truth.expected
      → Leads D truth (Sound truth 0 []) (Sound truth 0 []) (serial_branch D H e tx)
  unfolding serial_branch reading
  serial_branch-Leads e tx same = >>=-Leads (reset_heap-Leads _) (λ _.
      >>=-Leads (expect-Leads _ _) (λ root. >>=-Leads (read_peak-Leads _) (λ peak.
        >>=-Leads (show-Leads (serial_root root (human_bytes peak)))
          (λ _. check_root-Leads none none root e of_serial same refl refl))))

  pub read_branch-Leads :
      (args : Args) (tx : D.Tx)
      → args.expected_root ≡ truth.expected
      → Leads D truth (Sound truth 0 []) (Sound truth (runs_read args) []) (read_branch D H args tx)
  unfolding read_branch
  read_branch-Leads args tx same = choose args.digest_trie_tables args.reth_serial
    where
      choose :
          (digests serial : Bool)
          → Leads D truth
              (Sound truth 0 [])
              (Sound truth (if digests then 0 else (if serial then 0 else args.repeat)) [])
              (if digests
                then print_trie_tables_digest D H tx
                else (if serial
                    then serial_branch D H args.expected_root tx
                    else digest_branch D H args tx))
      choose true serial = digest-Leads H tx
      choose false true = serial_branch-Leads args.expected_root tx same
      choose false false = digest_branch-Leads args tx same

  pub change-Leads :
      (args : Args) (cpus : ℕ)
      → IsWalked D H truth
      → args.expected_root ≡ truth.expected
      → Leads D truth
          (Sound truth 0 [])
          (Sound truth (if args.write then args.repeat else 0) [])
          (change D H args cpus)
  unfolding change when
  change-Leads args cpus walks same = >>=-Leads (expect-Leads _ _) (λ _.
      >>=-Leads (when-Leads args.clear_trie_tables _ clear_branch-Leads) (λ _.
        >>=-Leads
          (when-Leads args.reth_rebuild _ (rebuild_branch-Leads H args.expected_root walks same))
          (λ _. last_branch args.write)))
    where
      last_branch :
          (b : Bool)
          → Leads D truth
              (Sound truth 0 [])
              (Sound truth (if b then args.repeat else 0) [])
              (when D b (write_branch D H args cpus))
      last_branch true = write_branch-Leads args cpus walks same
      last_branch false = pure-Leads tt

  pub measure-Leads :
      (args : Args) (cpus : ℕ)
      → args.expected_root ≡ truth.expected
      → Leads D truth (Sound truth 0 []) (Sound truth (runs_read args) []) (measure D H args cpus)
  unfolding measure reading
  measure-Leads args cpus same = >>=-Leads (expect-Leads _ _) (λ _. >>=-Leads read_tx-Leads (λ tx.
      >>=-Leads (print_tip-Leads H tx)
        (λ _. >>=-Leads (say (threads_are cpus) refl) (λ _. read_branch-Leads args tx same))))

  pub run_args-Leads :
      (args : Args)
      → IsWalked D H truth
      → args.expected_root ≡ truth.expected
      → Leads D truth (Sound truth 0 []) (Sound truth (runs_asked args) []) (run_args D H args)
  unfolding run_args
  run_args-Leads args walks same = >>=-Leads (expect-Leads _ _) (λ cpus. choose cpus (writes args))
    where
      choose :
          (cpus : ℕ) (b : Bool)
          → Leads D truth
              (Sound truth 0 [])
              (Sound truth
                (if b then (if args.write then args.repeat else 0) else runs_read args)
                [])
              (if b then change D H args cpus else measure D H args cpus)
      choose cpus true = change-Leads args cpus walks same
      choose cpus false = measure-Leads args cpus same
