-- ===== src/Bench/Args.antt =====
-- The command line of crates/bench/src/bin/datadir_bench.rs, without the program's name. `B256`'s
-- `FromStr` is of another crate and a parameter.
pub mod Words
pub mod Meaning
pub mod Accepted
pub mod Printed
use Prim.Native.String.{String, ◌++◌}
use text.Mathlib.Text.{◌==◌}
use reth_trie_rebuild_bench.Base.{
  ℕ, Bool, true, false, Option, none, some, List, [], ◌∷◌, map, if◌then◌else◌,
}
use reth_trie_rebuild_bench.Base.Options.{◌>>=◌}
use reth_trie_rebuild_bench.Trie.{B256}
use reth_trie_rebuild_bench.Writer.{default_chunk_nodes}
use reth_trie_rebuild_bench.Bench.Usize.{parse_usize}

pub record Args : Type 0 where
  pub datadir : String
  pub threads : Option ℕ
  pub repeat : ℕ
  pub expected_root : Option B256
  pub write : Bool
  pub chunk_nodes : ℕ
  pub reth_serial : Bool
  pub reth_rebuild : Bool
  pub clear_trie_tables : Bool
  pub digest_trie_tables : Bool

abbrev pub default_args : Args
default_args = record {
  datadir = "";
  threads = none;
  repeat = 1;
  expected_root = none;
  write = false;
  chunk_nodes = default_chunk_nodes;
  reth_serial = false;
  reth_rebuild = false;
  clear_trie_tables = false;
  digest_trie_tables = false;
}

-- The flags with a value, and those without.
pub data Setting : Type 0 where
  of_datadir of_threads of_repeat of_expected_root of_chunk_nodes : Setting

pub data Switch : Type 0 where
  to_write to_reth_serial to_reth_rebuild to_clear_trie_tables to_digest_trie_tables : Switch

pub data Flag : Type 0 where
  takes : Setting → Flag
  sets : Switch → Flag
  unknown : Flag

-- The arms of the `match`, in their order, and the first of them whose name is the flag's.
abbrev pub arms : List (String × Flag)
arms =
    ("--datadir", takes of_datadir)
    ∷ ("--threads", takes of_threads)
    ∷ ("--repeat", takes of_repeat)
    ∷ ("--expected-root", takes of_expected_root)
    ∷ ("--write", sets to_write)
    ∷ ("--chunk-nodes", takes of_chunk_nodes)
    ∷ ("--reth-serial", sets to_reth_serial)
    ∷ ("--reth-rebuild", sets to_reth_rebuild)
    ∷ ("--clear-trie-tables", sets to_clear_trie_tables)
    ∷ ("--digest-trie-tables", sets to_digest_trie_tables)
    ∷ []

unfoldable pub first_arm : String → List (String × Flag) → Flag
first_arm flag [] = unknown
first_arm flag ((name, arm) ∷ rest) =
    let later = first_arm flag rest in if flag == name then arm else later

unfoldable pub flag_of : String → Flag
flag_of flag = first_arm flag arms

unfoldable pub switch_on : Switch → Args → Args
switch_on to_write args = record args { write = true }
switch_on to_reth_serial args = record args { reth_serial = true }
switch_on to_reth_rebuild args = record args { reth_rebuild = true }
switch_on to_clear_trie_tables args = record args { clear_trie_tables = true }
switch_on to_digest_trie_tables args = record args { digest_trie_tables = true }

-- What `usage` is called with for a value that does not parse. A path always parses.
abbrev pub bad_value : Setting → String
bad_value of_datadir = ""
bad_value of_threads = "bad --threads"
bad_value of_repeat = "bad --repeat"
bad_value of_expected_root = "bad --expected-root"
bad_value of_chunk_nodes = "bad --chunk-nodes"

-- `usage` prints its message and exits with status 2.
pub data Parsed : Type 0 where
  parsed : Args → Parsed
  usage : String → Parsed

-- The test after the loop.
unfoldable pub check_datadir : Args → Parsed
check_datadir args = if args.datadir == "" then usage "--datadir is required" else parsed args

module _ (parse_root : String → Option B256) where
  -- The arm of a flag with a value: the arguments with it, or none if it does not parse.
  unfoldable pub store_value : Setting → String → Args → Option Args
  store_value of_datadir value args = some (record args { datadir = value })
  store_value of_threads value args = do
    threads ← parse_usize value
    some (record args { threads = some threads })
  store_value of_repeat value args = do
    repeat ← parse_usize value
    some (record args { repeat = repeat })
  store_value of_expected_root value args = do
    root ← parse_root value
    some (record args { expected_root = some root })
  store_value of_chunk_nodes value args = do
    chunk_nodes ← parse_usize value
    some (record args { chunk_nodes = chunk_nodes })

  -- The loop over the flags.
  unfoldable pub parse_flags : List String → Args → Parsed
  parse_flags [] args = check_datadir args
  parse_flags (flag ∷ []) args = elim (flag_of flag) [
    | takes setting ↦ usage (flag ++ " needs a value")
    | sets switch ↦ check_datadir (switch_on switch args)
    | unknown ↦ usage ("unknown flag " ++ flag)
  ]
  parse_flags (flag ∷ value ∷ rest) args = elim (flag_of flag) [
    | takes setting ↦ elim (store_value setting value args) [
      | some args' ↦ parse_flags rest args'
      | none ↦ usage (bad_value setting)
    ]
    | sets switch ↦ parse_flags (value ∷ rest) (switch_on switch args)
    | unknown ↦ usage ("unknown flag " ++ flag)
  ]

  unfoldable pub parse_args : List String → Parsed
  parse_args argv = parse_flags argv default_args
