-- ===== src/Bench/Args/Printed.antt =====
-- All arguments can be written as a command line.
use Prim.Native.String.{String}
use text.Mathlib.Text.{◌==◌ as ◌=ˢ◌}
use text.Mathlib.TextEquality.{eq_iff}
use reth_trie_rebuild_bench.Base.{
  ℕ, ◌^◌, ◌<◌, ◌≡◌, ◌≢◌, refl, sym, ap, ◌∙◌, Bool, true, false, Option, none, some, List, [], ◌∷◌,
  Bool-cases, inl, inr,
}
use reth_trie_rebuild_bench.Base.Decimal.{decimal}
use reth_trie_rebuild_bench.Trie.{B256}
use reth_trie_rebuild_bench.Bench.Usize.{parse_usize}
use reth_trie_rebuild_bench.Bench.Args.{
  Args, default_args, of_datadir, of_threads, of_repeat, of_expected_root, of_chunk_nodes, Switch,
  to_write, to_reth_serial, to_reth_rebuild, to_clear_trie_tables, to_digest_trie_tables, switch_on,
  parsed, check_datadir, store_value, parse_args,
}
use reth_trie_rebuild_bench.Bench.Args.Words.{
  Word, switch, setting, words, apply_words, apply_words-setting, parse_args-words,
}
use reth_trie_rebuild_bench.Bench.Decimals.{parse_usize-decimal}

-- The words that set all fields.
abbrev pub threads_words : Option ℕ → List Word → List Word
threads_words none ws = ws
threads_words (some n) ws = setting of_threads (decimal n) ∷ ws

abbrev pub switch_words : Bool → Switch → List Word → List Word
switch_words false s ws = ws
switch_words true s ws = switch s ∷ ws

module _ (parse_root : String → Option B256) (print_root : B256 → String) where
  abbrev pub root_words : Option B256 → List Word → List Word
  root_words none ws = ws
  root_words (some root) ws = setting of_expected_root (print_root root) ∷ ws

  abbrev pub command_line : Args → List Word
  command_line args =
      setting of_datadir args.datadir
      ∷ threads_words args.threads (
          setting of_repeat (decimal args.repeat)
          ∷ root_words args.expected_root (
              switch_words args.write to_write (
                setting of_chunk_nodes (decimal args.chunk_nodes)
                ∷ switch_words args.reth_serial to_reth_serial (
                    switch_words args.reth_rebuild to_reth_rebuild (
                      switch_words args.clear_trie_tables to_clear_trie_tables
                        (switch_words args.digest_trie_tables to_digest_trie_tables []))))))

  -- A setting whose text is read as its value.
  store_threads :
      (text : String) (n : ℕ) (args : Args)
      → parse_usize text ≡ some n
      → store_value parse_root of_threads text args ≡ some (record args { threads = some n })
  unfolding store_value
  store_threads text n args read = rw read refl

  store_repeat :
      (text : String) (n : ℕ) (args : Args)
      → parse_usize text ≡ some n
      → store_value parse_root of_repeat text args ≡ some (record args { repeat = n })
  unfolding store_value
  store_repeat text n args read = rw read refl

  store_chunk_nodes :
      (text : String) (n : ℕ) (args : Args)
      → parse_usize text ≡ some n
      → store_value parse_root of_chunk_nodes text args ≡ some (record args { chunk_nodes = n })
  unfolding store_value
  store_chunk_nodes text n args read = rw read refl

  store_root :
      (text : String) (root : B256) (args : Args)
      → parse_root text ≡ some root
      → store_value parse_root of_expected_root text args
        ≡ some (record args { expected_root = some root })
  unfolding store_value
  store_root text root args read = rw read refl

  store_datadir :
      (text : String) (args : Args)
      → store_value parse_root of_datadir text args ≡ some (record args { datadir = text })
  unfolding store_value
  store_datadir text args = refl

  apply_threads :
      (n : Option ℕ) (ws : List Word) (args : Args)
      → args.threads ≡ none
      → ((m : ℕ) → n ≡ some m → m < 2 ^ 64)
      → apply_words parse_root (threads_words n ws) args
        ≡ apply_words parse_root ws (record args { threads = n })
  apply_threads none ws args unset fits =
      ap (apply_words parse_root ws) (λ i. record args { threads = unset i })
  apply_threads (some m) ws args unset fits =
      apply_words-setting parse_root of_threads (decimal m) ws args _
        (store_threads (decimal m) m args (parse_usize-decimal m (fits m refl)))

  apply_root :
      ((root : B256) → parse_root (print_root root) ≡ some root)
      → (root : Option B256) (ws : List Word) (args : Args) → args.expected_root ≡ none
      → apply_words parse_root (root_words root ws) args
        ≡ apply_words parse_root ws (record args { expected_root = root })
  apply_root law none ws args unset =
      ap (apply_words parse_root ws) (λ i. record args { expected_root = unset i })
  apply_root law (some root) ws args unset =
      apply_words-setting parse_root of_expected_root (print_root root) ws args _
        (store_root (print_root root) root args (law root))

  -- The field of a switch, set to either value.
  abbrev with_switch : Switch → Bool → Args → Args
  with_switch to_write on args = record args { write = on }
  with_switch to_reth_serial on args = record args { reth_serial = on }
  with_switch to_reth_rebuild on args = record args { reth_rebuild = on }
  with_switch to_clear_trie_tables on args = record args { clear_trie_tables = on }
  with_switch to_digest_trie_tables on args = record args { digest_trie_tables = on }

  apply_switch :
      (on : Bool) (s : Switch) (ws : List Word) (args : Args)
      → with_switch s false args ≡ args
      → apply_words parse_root (switch_words on s ws) args
        ≡ apply_words parse_root ws (with_switch s on args)
  apply_switch false s ws args off = ap (apply_words parse_root ws) (sym off)
  apply_switch true s ws args off = ap (apply_words parse_root ws) (on s)
    where
      on : (s : Switch) → switch_on s args ≡ with_switch s true args
      on to_write = unfold switch_on in refl
      on to_reth_serial = unfold switch_on in refl
      on to_reth_rebuild = unfold switch_on in refl
      on to_clear_trie_tables = unfold switch_on in refl
      on to_digest_trie_tables = unfold switch_on in refl

  check_datadir-named : (args : Args) → args.datadir ≢ "" → check_datadir args ≡ parsed args
  unfolding check_datadir
  check_datadir-named args named = elim (Bool-cases (args.datadir =ˢ "")) [
    | inl empty ↦ absurd (named ((eq_iff args.datadir "").0 empty))
    | inr other ↦ rw other refl
  ]

  -- Any arguments with a data directory and numbers below 2^64 can be written as a command line
  -- that is read as them, where a printed root is read as it is.
  pub parse_args-command_line :
      ((root : B256) → parse_root (print_root root) ≡ some root)
      → (args : Args) → args.datadir ≢ ""
      → ((n : ℕ) → args.threads ≡ some n → n < 2 ^ 64)
      → args.repeat < 2 ^ 64
      → args.chunk_nodes < 2 ^ 64
      → parse_args parse_root (words (command_line args)) ≡ parsed args
  parse_args-command_line law args named threads repeat chunk_nodes =
      let digest = switch_words args.digest_trie_tables to_digest_trie_tables [] in
      let clear = switch_words args.clear_trie_tables to_clear_trie_tables digest in
      let rebuild = switch_words args.reth_rebuild to_reth_rebuild clear in
      let serial = switch_words args.reth_serial to_reth_serial rebuild in
      let chunks = setting of_chunk_nodes (decimal args.chunk_nodes) ∷ serial in
      let write = switch_words args.write to_write chunks in
      let root = root_words args.expected_root write in
      let repeats = setting of_repeat (decimal args.repeat) ∷ root in
      let a₀ : Args = record default_args { datadir = args.datadir } in
      let a₁ : Args = record a₀ { threads = args.threads } in
      let a₂ : Args = record a₁ { repeat = args.repeat } in
      let a₃ : Args = record a₂ { expected_root = args.expected_root } in
      let a₄ : Args = record a₃ { write = args.write } in
      let a₅ : Args = record a₄ { chunk_nodes = args.chunk_nodes } in
      let a₆ : Args = record a₅ { reth_serial = args.reth_serial } in
      let a₇ : Args = record a₆ { reth_rebuild = args.reth_rebuild } in
      let a₈ : Args = record a₇ { clear_trie_tables = args.clear_trie_tables } in
      parse_args-words parse_root (command_line args)
      ∙ apply_words-setting parse_root of_datadir args.datadir (threads_words args.threads repeats)
          default_args a₀ (store_datadir args.datadir default_args)
      ∙ apply_threads args.threads repeats a₀ refl threads
      ∙ apply_words-setting parse_root of_repeat (decimal args.repeat) root a₁ a₂ (
          store_repeat (decimal args.repeat) args.repeat a₁
            (parse_usize-decimal args.repeat repeat))
      ∙ apply_root law args.expected_root write a₂ refl
      ∙ apply_switch args.write to_write chunks a₃ refl
      ∙ apply_words-setting parse_root of_chunk_nodes (decimal args.chunk_nodes) serial a₄ a₅ (
          store_chunk_nodes (decimal args.chunk_nodes) args.chunk_nodes a₄
            (parse_usize-decimal args.chunk_nodes chunk_nodes))
      ∙ apply_switch args.reth_serial to_reth_serial rebuild a₅ refl
      ∙ apply_switch args.reth_rebuild to_reth_rebuild clear a₆ refl
      ∙ apply_switch args.clear_trie_tables to_clear_trie_tables digest a₇ refl
      ∙ apply_switch args.digest_trie_tables to_digest_trie_tables [] a₈ refl
      ∙ check_datadir-named args named
