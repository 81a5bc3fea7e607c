-- ===== src/Tests/CommandLines.antt =====
-- The command line, with two ways to read a root.
use Prim.Native.String.{String}
use Prim.Native.String.{◌++◌ as ◌<>◌}
use Prim.Native.Char.{code}
use reth_trie_rebuild_bench.Base.{
  ℕ, zero, suc, ◌+◌, ◌^◌, ◌<◌, ◌≡◌, ◌≢◌, refl, Option, some, true, List, [], ◌∷◌, ◌++◌, All, ap,
  ap₂, ◌∙◌, ◌==◌, if◌then◌else◌, arith,
}
use reth_trie_rebuild_bench.Trie.{B256}
use reth_trie_rebuild_bench.Bench.Usize.{
  digit_of, push_digit, parse_digits, parse_number, code_points, parse_usize,
}
use reth_trie_rebuild_bench.Bench.Args.{
  Args, default_args, Setting, usage, of_datadir, of_repeat, to_write, flag_of, first_arm,
  switch_on, parsed, check_datadir, store_value, parse_flags, parse_args,
}
use reth_trie_rebuild_bench.Bench.Args.Meaning.{taken, meant, Parses, Refuses, parse_args-meant}
use reth_trie_rebuild_bench.Bench.Args.Words.{
  setting_name, Word, switch, setting, words, apply_words,
}
use reth_trie_rebuild_bench.Bench.Args.Accepted.{parse_args-accepted}
use reth_trie_rebuild_bench.Bench.Args.Printed.{command_line, parse_args-command_line}

-- A root that is its text's code points.
abbrev read_root : String → Option B256
read_root text = some (code_points text)

abbrev two_runs : Args
two_runs = record default_args { datadir = "data"; repeat = 2; write = true }

two_runs-parsed :
    parse_args read_root ("--datadir" ∷ "data" ∷ "--repeat" ∷ "2" ∷ "--write" ∷ [])
    ≡ parsed two_runs
unfolding parse_args parse_flags flag_of first_arm switch_on store_value check_datadir parse_usize
    code_points parse_number parse_digits digit_of push_digit
two_runs-parsed = refl

-- The later number of runs wins.
abbrev two_repeats : List Word
two_repeats =
    setting of_repeat "7" ∷ setting of_datadir "data" ∷ setting of_repeat "2" ∷ switch to_write ∷ []

two_repeats-Parses : All (Parses read_root) two_repeats
unfolding parse_usize code_points parse_number parse_digits digit_of push_digit
two_repeats-Parses = ((7, refl), (tt, ((2, refl), (tt, tt))))

parse_args-meant_example :
    (parse_args read_root (words two_repeats) ≡ taken (meant read_root two_repeats default_args))
    × ((s : Setting) (value : String) (vs : List Word)
        → Refuses read_root s value
        → parse_args read_root (words (two_repeats ++ setting s value ∷ vs))
          ≡ usage ("bad " <> setting_name s))
parse_args-meant_example = parse_args-meant read_root two_repeats two_repeats-Parses

parse_args-accepted_example :
    ((ws : List Word) × ("--datadir" ∷ "data" ∷ "--repeat" ∷ "2" ∷ "--write" ∷ [] ≡ words ws)
      × (apply_words read_root ws default_args ≡ parsed two_runs))
    × (two_runs.datadir ≢ "")
parse_args-accepted_example =
    parse_args-accepted read_root ("--datadir" ∷ "data" ∷ "--repeat" ∷ "2" ∷ "--write" ∷ [])
      two_runs two_runs-parsed

-- A root in unary, each byte with a comma behind it.
abbrev ones : ℕ → String → String
ones zero rest = String.◌∷◌ "," rest
ones (suc n) rest = String.◌∷◌ "1" (ones n rest)

abbrev print_unary : B256 → String
print_unary [] = ""
print_unary (b ∷ root) = ones b (print_unary root)

abbrev read_unary : ℕ → String → B256
read_unary k String.[] = []
read_unary k (String.◌∷◌ c text) =
    let next = read_unary 0 text in
    let more = read_unary (suc k) text in if code c == b',' then k ∷ next else more

read_unary-ones :
    (k n : ℕ) (text : String) → read_unary k (ones n text) ≡ (k + n) ∷ read_unary 0 text
read_unary-ones k zero text = ap (λ t. t ∷ read_unary 0 text) (omega arith)
read_unary-ones k (suc n) text =
    read_unary-ones (suc k) n text ∙ ap (λ t. t ∷ read_unary 0 text) (omega arith)

read_unary-print_unary : (root : B256) → some (read_unary 0 (print_unary root)) ≡ some root
read_unary-print_unary [] = refl
read_unary-print_unary (b ∷ root) =
    ap some (read_unary-ones 0 b (print_unary root))
    ∙ ap₂ (λ x t. some (x ∷ t)) (omega arith) (some_injective (read_unary-print_unary root))
  where
    some_injective : {x y : B256} → some x ≡ some y → x ≡ y
    some_injective e = cc

abbrev all_set : Args
all_set = record two_runs {
  threads = some 8;
  expected_root = some (3 ∷ 1 ∷ []);
  reth_serial = true;
  digest_trie_tables = true;
}

data-ne-empty : all_set.datadir ≢ ""
data-ne-empty e = cc

threads_fit : (n : ℕ) → some 8 ≡ some n → n < 2 ^ 64
threads_fit n e = let same : 8 ≡ n = cc in omega (arith, same)

parse_args-command_line_example :
    parse_args
      (λ text. some (read_unary 0 text))
      (words (command_line (λ text. some (read_unary 0 text)) print_unary all_set))
    ≡ parsed all_set
parse_args-command_line_example =
    parse_args-command_line (λ text. some (read_unary 0 text)) print_unary read_unary-print_unary
      all_set data-ne-empty threads_fit (omega arith) (omega arith)
