-- ===== src/Bench/Usize.antt =====
-- `str::parse::<usize>`, by which the program reads its numbers: decimal digits after a `+` that may
-- be left out, up to 2^64 - 1.
use Prim.Native.Char.{code}
use Prim.Native.String.{String}
use reth_trie_rebuild_bench.Base.Options.{◌>>=◌}
use reth_trie_rebuild_bench.Base.{
  ℕ, ◌+◌, ◌-◌, ◌*◌, ◌^◌, ◌≤◌, ◌<◌, ◌≡◌, refl, true, false, ◌&&◌, Option, none, some, List, [], ◌∷◌,
  All, leb, ltb, ◌==◌, if◌then◌else◌, arith, dec_lt, map,
}

-- The code points of a text.
unfoldable pub code_points : String → List ℕ
code_points String.[] = []
code_points (String.◌∷◌ c text) = code c ∷ code_points text

-- `(c as char).to_digit(10)`
unfoldable pub digit_of : ℕ → Option ℕ
digit_of c = if leb b'0' c && leb c b'9' then some (c - b'0') else none

-- `checked_mul` and `checked_add`, digit by digit.
unfoldable pub push_digit : ℕ → ℕ → Option ℕ
push_digit acc d = if ltb (acc * 10 + d) (2 ^ 64) then some (acc * 10 + d) else none

unfoldable pub parse_digits : ℕ → List ℕ → Option ℕ
parse_digits acc [] = some acc
parse_digits acc (c ∷ cs) = do d ← digit_of c; next ← push_digit acc d; parse_digits next cs

-- No digits at all are an error, and so is a `+` alone.
unfoldable pub parse_number : List ℕ → Option ℕ
parse_number [] = none
parse_number (c ∷ []) = if c == b'+' then none else parse_digits 0 (c ∷ [])
parse_number (c ∷ d ∷ cs) =
    if c == b'+' then parse_digits 0 (d ∷ cs) else parse_digits 0 (c ∷ d ∷ cs)

unfoldable pub parse_usize : String → Option ℕ
parse_usize text = parse_number (code_points text)

-- The number that decimal digits stand for, after `acc`.
abbrev pub value_from : ℕ → List ℕ → ℕ
value_from acc [] = acc
value_from acc (d ∷ ds) = value_from (acc * 10 + d) ds

abbrev pub digit_char : ℕ → ℕ
digit_char d = b'0' + d

-- The number if it fits, as `checked_add` has it.
abbrev pub checked : ℕ → Option ℕ
checked n = if ltb n (2 ^ 64) then some n else none

le-value_from : (acc : ℕ) (ds : List ℕ) → acc ≤ value_from acc ds
le-value_from acc [] = omega arith
le-value_from acc (d ∷ ds) = omega (arith, le-value_from (acc * 10 + d) ds)

digit_of-digit_char : (d : ℕ) → d < 10 → digit_of (digit_char d) ≡ some d
unfolding digit_of
digit_of-digit_char d h = ground arith

parse_digits-digits :
    (acc : ℕ) (ds : List ℕ)
    → acc < 2 ^ 64
    → All (λ d. d < 10) ds
    → parse_digits acc (map digit_char ds) ≡ checked (value_from acc ds)
unfolding parse_digits push_digit
parse_digits-digits acc [] h w = ground arith
parse_digits-digits acc (d ∷ ds) h w =
    let below = le-value_from (acc * 10 + d) ds in
    rw (digit_of-digit_char d w.0) (elim (dec_lt (acc * 10 + d) (2 ^ 64)) [
      | yes fits ↦
          let test : ltb (acc * 10 + d) (2 ^ 64) ≡ true = ground arith in
          rw test (parse_digits-digits (acc * 10 + d) ds fits w.1)
      | no large ↦
          let test : ltb (acc * 10 + d) (2 ^ 64) ≡ false = ground arith in
          let over : ltb (value_from (acc * 10 + d) ds) (2 ^ 64) ≡ false = ground (arith, below) in
          rw (test, over) refl
    ])

-- Decimal digits, with or without a `+` in front, are read as the number that they stand for if it
-- is below 2^64, and refused if it is not, leading zeros or not.
pub parse_number-digits :
    (d : ℕ) (ds : List ℕ)
    → All (λ d. d < 10) (d ∷ ds)
    → (parse_number (map digit_char (d ∷ ds)) ≡ checked (value_from 0 (d ∷ ds)))
      × (parse_number (b'+' ∷ map digit_char (d ∷ ds)) ≡ checked (value_from 0 (d ∷ ds)))
unfolding parse_number
parse_number-digits d ds w =
    let no_sign : (digit_char d == b'+') ≡ false = ground arith in
    let read = parse_digits-digits 0 (d ∷ ds) (omega arith) w in (bare ds no_sign read, read)
  where
    bare :
        (ds : List ℕ)
        → (digit_char d == b'+') ≡ false
        → parse_digits 0 (map digit_char (d ∷ ds)) ≡ checked (value_from 0 (d ∷ ds))
        → parse_number (map digit_char (d ∷ ds)) ≡ checked (value_from 0 (d ∷ ds))
    bare [] no_sign read = rw no_sign read
    bare (e ∷ ds) no_sign read = rw no_sign read
