-- ===== src/Base/Decimal.antt =====
-- Numbers below 10^20 in decimal, as `to_string` prints them.
use Prim.Native.Char.{Char}
use Prim.Native.String.{String}
use reth_trie_rebuild_bench.Base.{
  ℕ, zero, suc, ◌/◌, ◌%◌, List, [], ◌∷◌, ◌++◌, ltb, if◌then◌else◌, get_or,
}

abbrev pub digit_texts : List Char
digit_texts = "0" ∷ "1" ∷ "2" ∷ "3" ∷ "4" ∷ "5" ∷ "6" ∷ "7" ∷ "8" ∷ "9" ∷ []

abbrev pub digit_text : ℕ → Char
digit_text d = get_or digit_texts d "0"

-- The decimal digits of a number below `10 ^ fuel`.
abbrev pub digits : ℕ → ℕ → List ℕ
digits zero n = []
digits (suc fuel) n =
    let more = digits fuel (n / 10) in if ltb n 10 then n ∷ [] else more ++ (n % 10) ∷ []

abbrev pub text_of : List ℕ → String
text_of [] = ""
text_of (d ∷ ds) = String.◌∷◌ (digit_text d) (text_of ds)

-- `usize::to_string`
abbrev pub decimal : ℕ → String
decimal n = text_of (digits 20 n)
