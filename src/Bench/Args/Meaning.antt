-- ===== src/Bench/Args/Meaning.antt =====
-- What the words of a command line mean for each field of the arguments, written down field by field.
use Prim.Native.String.{String}
use Prim.Native.String.{◌++◌ as ◌<>◌}
use mathlib.Core.List.{append-nil}
use text.Mathlib.Text.{◌==◌}
use reth_trie_rebuild_bench.Base.{
  ℕ, ◌≡◌, refl, ◌∙◌, Bool, true, Option, none, some, List, [], ◌∷◌, ◌++◌, All, if◌then◌else◌,
}
use reth_trie_rebuild_bench.Trie.{B256}
use reth_trie_rebuild_bench.Bench.Usize.{parse_usize}
use reth_trie_rebuild_bench.Bench.Args.{
  Args, default_args, Setting, of_datadir, of_threads, of_repeat, of_expected_root, of_chunk_nodes,
  to_write, to_reth_serial, to_reth_rebuild, to_clear_trie_tables, to_digest_trie_tables, switch_on,
  Parsed, parsed, usage, check_datadir, store_value, parse_args,
}
use reth_trie_rebuild_bench.Bench.Args.Words.{
  setting_name, Word, switch, setting, words, apply_words, apply_words-setting, apply_words-bad,
  parse_args-words,
}

abbrev pub or_else : {A : Type 0} → Option A → A → A
or_else none old = old
or_else (some new) old = new

-- What the last word that says something says, and `old` if none does.
abbrev pub last : {A : Type 0} → (Word → Option A) → A → List Word → A
last says old [] = old
last says old (w ∷ ws) = last says (or_else (says w) old) ws

abbrev pub says_datadir : Word → Option String
says_datadir (setting of_datadir value) = some value
says_datadir _ = none

abbrev pub says_threads : Word → Option (Option ℕ)
says_threads (setting of_threads value) = some (parse_usize value)
says_threads _ = none

abbrev pub says_repeat : Word → Option ℕ
says_repeat (setting of_repeat value) = parse_usize value
says_repeat _ = none

abbrev pub says_chunk_nodes : Word → Option ℕ
says_chunk_nodes (setting of_chunk_nodes value) = parse_usize value
says_chunk_nodes _ = none

abbrev pub says_write : Word → Option Bool
says_write (switch to_write) = some true
says_write _ = none

abbrev pub says_reth_serial : Word → Option Bool
says_reth_serial (switch to_reth_serial) = some true
says_reth_serial _ = none

abbrev pub says_reth_rebuild : Word → Option Bool
says_reth_rebuild (switch to_reth_rebuild) = some true
says_reth_rebuild _ = none

abbrev pub says_clear_trie_tables : Word → Option Bool
says_clear_trie_tables (switch to_clear_trie_tables) = some true
says_clear_trie_tables _ = none

abbrev pub says_digest_trie_tables : Word → Option Bool
says_digest_trie_tables (switch to_digest_trie_tables) = some true
says_digest_trie_tables _ = none

-- Arguments are taken if they name a data directory.
abbrev pub taken : Args → Parsed
taken args = if args.datadir == "" then usage "--datadir is required" else parsed args

module _ (parse_root : String → Option B256) where
  abbrev pub says_expected_root : Word → Option (Option B256)
  says_expected_root (setting of_expected_root value) = some (parse_root value)
  says_expected_root _ = none

  abbrev pub meant : List Word → Args → Args
  meant ws args = record {
    datadir = last says_datadir args.datadir ws;
    threads = last says_threads args.threads ws;
    repeat = last says_repeat args.repeat ws;
    expected_root = last says_expected_root args.expected_root ws;
    write = last says_write args.write ws;
    chunk_nodes = last says_chunk_nodes args.chunk_nodes ws;
    reth_serial = last says_reth_serial args.reth_serial ws;
    reth_rebuild = last says_reth_rebuild args.reth_rebuild ws;
    clear_trie_tables = last says_clear_trie_tables args.clear_trie_tables ws;
    digest_trie_tables = last says_digest_trie_tables args.digest_trie_tables ws;
  }

  -- The value of a word parses, if it has to.
  abbrev pub Parses : Word → Type 0
  Parses (switch s) = Unit {0}
  Parses (setting of_datadir value) = Unit {0}
  Parses (setting of_threads value) = (n : ℕ) × (parse_usize value ≡ some n)
  Parses (setting of_repeat value) = (n : ℕ) × (parse_usize value ≡ some n)
  Parses (setting of_expected_root value) = (r : B256) × (parse_root value ≡ some r)
  Parses (setting of_chunk_nodes value) = (n : ℕ) × (parse_usize value ≡ some n)

  -- It does not.
  abbrev pub Refuses : Setting → String → Type 0
  Refuses of_datadir value = ⊥
  Refuses of_threads value = parse_usize value ≡ none
  Refuses of_repeat value = parse_usize value ≡ none
  Refuses of_expected_root value = parse_root value ≡ none
  Refuses of_chunk_nodes value = parse_usize value ≡ none

  -- Words that parse, before any others, act as they mean.
  apply_words-meant :
      (ws vs : List Word) (args : Args)
      → All Parses ws
      → apply_words parse_root (ws ++ vs) args ≡ apply_words parse_root vs (meant ws args)
  unfolding switch_on store_value
  apply_words-meant [] vs args h = refl
  apply_words-meant (switch to_write ∷ ws) vs args h = apply_words-meant ws vs _ h.1
  apply_words-meant (switch to_reth_serial ∷ ws) vs args h = apply_words-meant ws vs _ h.1
  apply_words-meant (switch to_reth_rebuild ∷ ws) vs args h = apply_words-meant ws vs _ h.1
  apply_words-meant (switch to_clear_trie_tables ∷ ws) vs args h = apply_words-meant ws vs _ h.1
  apply_words-meant (switch to_digest_trie_tables ∷ ws) vs args h = apply_words-meant ws vs _ h.1
  apply_words-meant (setting of_datadir value ∷ ws) vs args h = apply_words-meant ws vs _ h.1
  apply_words-meant (setting of_threads value ∷ ws) vs args h =
      let args' = record args { threads = some h.0.0 } in
      apply_words-setting parse_root of_threads value (ws ++ vs) args args' (rw h.0.1 refl)
      ∙ rw h.0.1 (apply_words-meant ws vs args' h.1)
  apply_words-meant (setting of_repeat value ∷ ws) vs args h =
      let args' = record args { repeat = h.0.0 } in
      apply_words-setting parse_root of_repeat value (ws ++ vs) args args' (rw h.0.1 refl)
      ∙ rw h.0.1 (apply_words-meant ws vs args' h.1)
  apply_words-meant (setting of_expected_root value ∷ ws) vs args h =
      let args' = record args { expected_root = some h.0.0 } in
      apply_words-setting parse_root of_expected_root value (ws ++ vs) args args' (rw h.0.1 refl)
      ∙ rw h.0.1 (apply_words-meant ws vs args' h.1)
  apply_words-meant (setting of_chunk_nodes value ∷ ws) vs args h =
      let args' = record args { chunk_nodes = h.0.0 } in
      apply_words-setting parse_root of_chunk_nodes value (ws ++ vs) args args' (rw h.0.1 refl)
      ∙ rw h.0.1 (apply_words-meant ws vs args' h.1)

  apply_words-taken : (args : Args) → apply_words parse_root [] args ≡ taken args
  unfolding check_datadir
  apply_words-taken args = refl

  apply_words-bad_value :
      (s : Setting) (value : String) (vs : List Word) (args : Args)
      → Refuses s value
      → apply_words parse_root (setting s value ∷ vs) args ≡ usage ("bad " <> setting_name s)
  unfolding store_value
  apply_words-bad_value of_datadir value vs args h = absurd h
  apply_words-bad_value of_threads value vs args h =
      apply_words-bad parse_root of_threads value vs args (rw h refl)
  apply_words-bad_value of_repeat value vs args h =
      apply_words-bad parse_root of_repeat value vs args (rw h refl)
  apply_words-bad_value of_expected_root value vs args h =
      apply_words-bad parse_root of_expected_root value vs args (rw h refl)
  apply_words-bad_value of_chunk_nodes value vs args h =
      apply_words-bad parse_root of_chunk_nodes value vs args (rw h refl)

  -- A command line of words whose values parse, where they have to, gives each field what the last
  -- word for it says, and its default where there is none; a switch says that its field is set. It
  -- is refused if that names no data directory. Where a value that does not parse comes after such
  -- words, the command line is refused as bad for the first such value, whatever follows.
  pub parse_args-meant :
      (ws : List Word)
      → All Parses ws
      → (parse_args parse_root (words ws) ≡ taken (meant ws default_args))
        × ((s : Setting) (value : String) (vs : List Word)
            → Refuses s value
            → parse_args parse_root (words (ws ++ setting s value ∷ vs))
              ≡ usage ("bad " <> setting_name s))
  parse_args-meant ws h = (
    parse_args-words parse_root ws
        ∙ (rw (append-nil ws) at (apply_words-meant ws [] default_args h))
        ∙ apply_words-taken (meant ws default_args),
    λ s value vs refuses.
        parse_args-words parse_root (ws ++ setting s value ∷ vs)
        ∙ apply_words-meant ws (setting s value ∷ vs) default_args h
        ∙ apply_words-bad_value s value vs (meant ws default_args) refuses,
  )
