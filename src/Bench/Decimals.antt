-- ===== src/Bench/Decimals.antt =====
-- Numbers that are printed in decimal and read by `str::parse::<usize>`.
use Prim.Native.Char.{Char, code}
use native.Mathlib.Nat.{pow-suc}
use reth_trie_rebuild_bench.Base.{
  ℕ, zero, suc, ◌+◌, ◌*◌, ◌/◌, ◌%◌, ◌^◌, ◌<◌, ◌≡◌, ◌≢◌, refl, ap, ap₂, ◌∙◌, true, false, some, List,
  [], ◌∷◌, ◌++◌, All, map, ltb, arith, Bool-cases, inl, inr, dec_lt, get_or, length,
}
use reth_trie_rebuild_bench.Base.Decimal.{digit_texts, digit_text, digits, text_of, decimal}
use reth_trie_rebuild_bench.Bench.Usize.{
  code_points, parse_number, parse_usize, digit_char, value_from, parse_number-digits,
}

-- The characters from `n` on are the digits from `n` on.
Ascend : ℕ → List Char → Type 0
Ascend n [] = Unit {0}
Ascend n (c ∷ cs) = (code c ≡ digit_char n) × Ascend (suc n) cs

code-get_or :
    (n d : ℕ) (cs : List Char)
    → Ascend n cs
    → d < length cs
    → code (get_or cs d "0") ≡ digit_char (n + d)
unfolding Ascend
code-get_or n d [] h l = absurd (omega arith)
code-get_or n zero (c ∷ cs) h l = h.0 ∙ ap digit_char (omega arith)
code-get_or n (suc d) (c ∷ cs) h l =
    code-get_or (suc n) d cs h.1 (omega arith) ∙ ap digit_char (omega arith)

code-digit_text : (d : ℕ) → d < 10 → code (digit_text d) ≡ digit_char d
unfolding Ascend
code-digit_text d h =
    code-get_or 0 d digit_texts
      (refl, (refl, (refl, (refl, (refl, (refl, (refl, (refl, (refl, (refl, tt)))))))))) h
    ∙ ap digit_char (omega arith)

code_points-text_of :
    (ds : List ℕ) → All (λ d. d < 10) ds → code_points (text_of ds) ≡ map digit_char ds
unfolding code_points
code_points-text_of [] w = refl
code_points-text_of (d ∷ ds) w = ap₂ ◌∷◌ (code-digit_text d w.0) (code_points-text_of ds w.1)

value_from-snoc :
    (acc : ℕ) (ds : List ℕ) (d : ℕ) → value_from acc (ds ++ d ∷ []) ≡ value_from acc ds * 10 + d
value_from-snoc acc [] d = refl
value_from-snoc acc (e ∷ ds) d = value_from-snoc (acc * 10 + e) ds d

All-snoc : (ds : List ℕ) (d : ℕ) → All (λ d. d < 10) ds → d < 10 → All (λ d. d < 10) (ds ++ d ∷ [])
All-snoc [] d w h = (h, tt)
All-snoc (e ∷ ds) d w h = (w.0, All-snoc ds d w.1 h)

-- The digits of a number stand for it.
digits_lem :
    (fuel n : ℕ)
    → n < 10 ^ fuel
    → All (λ d. d < 10) (digits fuel n) × (value_from 0 (digits fuel n) ≡ n)
digits_lem zero n h = (tt, omega arith)
digits_lem (suc fuel) n h = elim (dec_lt n 10) [
  | yes one ↦
      let test : ltb n 10 ≡ true = ground arith in rw (test, digits) ((one, tt), omega arith)
  | no more ↦
      let test : ltb n 10 ≡ false = ground arith in
      let (w, v) = digits_lem fuel (n / 10) (omega (arith, pow-suc 10 fuel, h)) in
      rw (test, digits)
        (
          All-snoc (digits fuel (n / 10)) (n % 10) w (omega arith),
          value_from-snoc 0 (digits fuel (n / 10)) (n % 10) ∙ omega (arith, v),
        )
]

snoc-ne-nil : (ds : List ℕ) (d : ℕ) → ds ++ d ∷ [] ≢ []
snoc-ne-nil [] d e = cc
snoc-ne-nil (c ∷ ds) d e = cc

digits-ne-nil : (fuel n : ℕ) → digits (suc fuel) n ≢ []
digits-ne-nil fuel n e = elim (Bool-cases (ltb n 10)) [
  | inl one ↦ let found : n ∷ [] ≡ [] = rw one at e in cc
  | inr more ↦ snoc-ne-nil (digits fuel (n / 10)) (n % 10) (rw more at e)
]

-- A number below 2^64 is read as it is written.
pub parse_usize-decimal : (n : ℕ) → n < 2 ^ 64 → parse_usize (decimal n) ≡ some n
unfolding parse_usize
parse_usize-decimal n h =
    let (w, v) = digits_lem 20 n (omega (arith, h)) in
    rw (code_points-text_of (digits 20 n) w) (go (digits 20 n) (digits-ne-nil 19 n) w v)
  where
    go :
        (ds : List ℕ)
        → ds ≢ []
        → All (λ d. d < 10) ds
        → value_from 0 ds ≡ n
        → parse_number (map digit_char ds) ≡ some n
    go [] some_digit w v = absurd (some_digit refl)
    go (d ∷ ds) some_digit w v = (parse_number-digits d ds w).0 ∙ rw v (ground (arith, h))
