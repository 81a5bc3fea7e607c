-- ===== src/Bench/Args/Words.antt =====
-- What the command line means: each word or pair of words sets one field, and nothing else is taken.
use Prim.Native.String.{String}
use Prim.Native.String.{◌++◌ as ◌<>◌}
use text.Mathlib.Text.{◌==◌}
use text.Mathlib.TextEquality.{eq_iff}
use reth_trie_rebuild_bench.Base.{
  ◌≡◌, refl, sym, subst, ◌∙◌, Option, none, some, List, [], ◌∷◌, All, Option-cases, inl, inr,
  Bool-cases,
}
use reth_trie_rebuild_bench.Trie.{B256}
use reth_trie_rebuild_bench.Bench.Args.{
  Args, default_args, Setting, of_datadir, of_threads, of_repeat, of_expected_root, of_chunk_nodes,
  Switch, to_write, to_reth_serial, to_reth_rebuild, to_clear_trie_tables, to_digest_trie_tables,
  Flag, takes, sets, unknown, arms, first_arm, flag_of, switch_on, bad_value, Parsed, usage,
  check_datadir, store_value, parse_flags, parse_args,
}

abbrev pub setting_name : Setting → String
setting_name of_datadir = "--datadir"
setting_name of_threads = "--threads"
setting_name of_repeat = "--repeat"
setting_name of_expected_root = "--expected-root"
setting_name of_chunk_nodes = "--chunk-nodes"

abbrev pub switch_name : Switch → String
switch_name to_write = "--write"
switch_name to_reth_serial = "--reth-serial"
switch_name to_reth_rebuild = "--reth-rebuild"
switch_name to_clear_trie_tables = "--clear-trie-tables"
switch_name to_digest_trie_tables = "--digest-trie-tables"

flag_of-setting_name : (s : Setting) → flag_of (setting_name s) ≡ takes s
unfolding flag_of first_arm
flag_of-setting_name of_datadir = refl
flag_of-setting_name of_threads = refl
flag_of-setting_name of_repeat = refl
flag_of-setting_name of_expected_root = refl
flag_of-setting_name of_chunk_nodes = refl

flag_of-switch_name : (s : Switch) → flag_of (switch_name s) ≡ sets s
unfolding flag_of first_arm
flag_of-switch_name to_write = refl
flag_of-switch_name to_reth_serial = refl
flag_of-switch_name to_reth_rebuild = refl
flag_of-switch_name to_clear_trie_tables = refl
flag_of-switch_name to_digest_trie_tables = refl

-- What a flag's arm says of its name.
IsNamed : String → Flag → Type 0
IsNamed flag (takes s) = flag ≡ setting_name s
IsNamed flag (sets s) = flag ≡ switch_name s
IsNamed flag unknown = Unit {0}

arms-IsNamed : All (λ arm. IsNamed arm.0 arm.1) arms
unfolding IsNamed
arms-IsNamed = (refl, (refl, (refl, (refl, (refl, (refl, (refl, (refl, (refl, (refl, tt))))))))))

first_arm-IsNamed :
    (flag : String) (l : List (String × Flag))
    → All (λ arm. IsNamed arm.0 arm.1) l
    → IsNamed flag (first_arm flag l)
unfolding first_arm
first_arm-IsNamed flag [] h = unfold IsNamed in tt
first_arm-IsNamed flag ((name, arm) ∷ rest) h = elim (Bool-cases (flag == name)) [
  | inl same ↦ rw same (subst (λ t. IsNamed t arm) (sym ((eq_iff flag name).0 same)) h.0)
  | inr other ↦ rw other (first_arm-IsNamed flag rest h.1)
]

-- A flag is known by its name alone.
pub takes-name : (flag : String) (s : Setting) → flag_of flag ≡ takes s → flag ≡ setting_name s
unfolding flag_of IsNamed
takes-name flag s e = subst (IsNamed flag) e (first_arm-IsNamed flag arms arms-IsNamed)

pub sets-name : (flag : String) (s : Switch) → flag_of flag ≡ sets s → flag ≡ switch_name s
unfolding flag_of IsNamed
sets-name flag s e = subst (IsNamed flag) e (first_arm-IsNamed flag arms arms-IsNamed)

-- A word of the command line: a switch, or a setting with its value.
pub data Word : Type 0 where
  switch : Switch → Word
  setting : Setting → String → Word

abbrev pub words : List Word → List String
words [] = []
words (switch s ∷ ws) = switch_name s ∷ words ws
words (setting s value ∷ ws) = setting_name s ∷ value ∷ words ws

module _ (parse_root : String → Option B256) where
  -- What words do to the arguments, one after another, up to a value that does not parse.
  abbrev pub apply_words : List Word → Args → Parsed
  apply_words [] args = check_datadir args
  apply_words (switch s ∷ ws) args = apply_words ws (switch_on s args)
  apply_words (setting s value ∷ ws) args = elim (store_value parse_root s value args) [
    | some args' ↦ apply_words ws args'
    | none ↦ usage (bad_value s)
  ]

  -- One equation for each way that a round of the loop goes.
  unfoldable pub after_value : Setting → Option Args → List String → Parsed
  after_value s none rest = usage (bad_value s)
  after_value s (some args) rest = parse_flags parse_root rest args

  pub parse_flags-sets :
      (flag : String) (s : Switch) (rest : List String) (args : Args)
      → flag_of flag ≡ sets s
      → parse_flags parse_root (flag ∷ rest) args ≡ parse_flags parse_root rest (switch_on s args)
  unfolding parse_flags
  parse_flags-sets flag s [] args f = rw (f, parse_flags) refl
  parse_flags-sets flag s (value ∷ rest) args f = rw (f, parse_flags) refl

  pub parse_flags-takes :
      (flag : String) (s : Setting) (value : String) (rest : List String) (args : Args)
      → flag_of flag ≡ takes s
      → parse_flags parse_root (flag ∷ value ∷ rest) args
        ≡ after_value s (store_value parse_root s value args) rest
  unfolding parse_flags after_value
  parse_flags-takes flag s value rest args f =
      elim (Option-cases (store_value parse_root s value args)) [
        | inl bad ↦ rw (f, parse_flags) (rw (bad, parse_flags, after_value) refl)
        | inr (args', stored) ↦ rw (f, parse_flags) (rw (stored, parse_flags, after_value) refl)
      ]

  pub parse_flags-last :
      (flag : String) (s : Setting) (args : Args)
      → flag_of flag ≡ takes s
      → parse_flags parse_root (flag ∷ []) args ≡ usage (flag <> " needs a value")
  unfolding parse_flags
  parse_flags-last flag s args f = rw (f, parse_flags) refl

  pub parse_flags-unknown :
      (flag : String) (rest : List String) (args : Args)
      → flag_of flag ≡ unknown
      → parse_flags parse_root (flag ∷ rest) args ≡ usage ("unknown flag " <> flag)
  unfolding parse_flags
  parse_flags-unknown flag [] args f = rw (f, parse_flags) refl
  parse_flags-unknown flag (value ∷ rest) args f = rw (f, parse_flags) refl

  pub apply_words-setting :
      (s : Setting) (value : String) (ws : List Word) (args args' : Args)
      → store_value parse_root s value args ≡ some args'
      → apply_words (setting s value ∷ ws) args ≡ apply_words ws args'
  apply_words-setting s value ws args args' stored = rw (stored, apply_words) refl

  pub apply_words-bad :
      (s : Setting) (value : String) (ws : List Word) (args : Args)
      → store_value parse_root s value args ≡ none
      → apply_words (setting s value ∷ ws) args ≡ usage (bad_value s)
  apply_words-bad s value ws args bad = rw (bad, apply_words) refl

  after_value-words :
      (s : Setting) (value : String) (ws : List Word) (args : Args)
      → ((b : Args) → parse_flags parse_root (words ws) b ≡ apply_words ws b)
      → after_value s (store_value parse_root s value args) (words ws)
        ≡ apply_words (setting s value ∷ ws) args
  unfolding after_value
  after_value-words s value ws args h = elim (Option-cases (store_value parse_root s value args)) [
    | inl bad ↦ rw (apply_words-bad s value ws args bad, bad) refl
    | inr (args', stored) ↦ rw (apply_words-setting s value ws args args' stored, stored) (h args')
  ]

  parse_flags-words :
      (ws : List Word) (args : Args) → parse_flags parse_root (words ws) args ≡ apply_words ws args
  parse_flags-words [] args = unfold parse_flags in refl
  parse_flags-words (switch s ∷ ws) args =
      parse_flags-sets (switch_name s) s (words ws) args (flag_of-switch_name s)
      ∙ parse_flags-words ws (switch_on s args)
  parse_flags-words (setting s value ∷ ws) args =
      parse_flags-takes (setting_name s) s value (words ws) args (flag_of-setting_name s)
      ∙ after_value-words s value ws args (parse_flags-words ws)

  -- A command line of words means what the words do one after another, so that a later word for
  -- the same field wins; it is refused at the first value that does not parse, and where no data
  -- directory is named.
  pub parse_args-words :
      (ws : List Word) → parse_args parse_root (words ws) ≡ apply_words ws default_args
  unfolding parse_args
  parse_args-words ws = parse_flags-words ws default_args
