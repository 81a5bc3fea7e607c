-- ===== src/Synth/Period.antt =====
-- The generator repeats no word before it has made them all.
use reth_trie_rebuild_bench.Base.{
  ℕ, zero, suc, ◌+◌, ◌*◌, ◌/◌, ◌%◌, ◌^◌, ◌≤◌, ◌<◌, ◌≡◌, refl, sym, ap, ◌∙◌, bit_xor, arith,
}
use reth_trie_rebuild_bench.Base.Bits.{xor_low_digit, xor_comm, zero-xor, xor_assoc, xor-lt}
use reth_trie_rebuild_bench.Synth.{
  golden, mul_first, mul_second, xor_shift, wrapping_mul, mix, advance, next_u64,
}

-- Multiplying by an odd number is undone by its inverse.
mul_first_inverse :
    (z : ℕ) → z < 2 ^ 64 → z * mul_first % 2 ^ 64 * 0x96DE_1B17_3F11_9089 % 2 ^ 64 ≡ z
mul_first_inverse z h = omega arith

mul_second_inverse :
    (z : ℕ) → z < 2 ^ 64 → z * mul_second % 2 ^ 64 * 0x3196_42B2_D24D_8EC3 % 2 ^ 64 ≡ z
mul_second_inverse z h = omega arith

golden_inverse : (n : ℕ) → n < 2 ^ 64 → n * golden % 2 ^ 64 * 0xF1DE_83E1_9937_733D % 2 ^ 64 ≡ n
golden_inverse n h = omega arith

half-xor : (a b : ℕ) → bit_xor a b / 2 ≡ bit_xor (a / 2) (b / 2)
half-xor a b = omega (arith, xor_low_digit a b)

-- Shifting right one digit at a time.
shift : ℕ → ℕ → ℕ
shift zero a = a
shift (suc k) a = shift k (a / 2)

shift-xor : (k a b : ℕ) → shift k (bit_xor a b) ≡ bit_xor (shift k a) (shift k b)
unfolding shift
shift-xor zero a b = refl
shift-xor (suc k) a b = ap (shift k) (half-xor a b) ∙ shift-xor k (a / 2) (b / 2)

xor_self_below : (n a : ℕ) → a ≤ n → bit_xor a a ≡ 0
xor_self_below zero zero h = zero-xor 0
xor_self_below zero (suc a) h = absurd (omega arith)
xor_self_below (suc n) a h =
    omega (arith, xor_low_digit a a, xor_self_below n (a / 2) (omega arith))

xor_self : (a : ℕ) → bit_xor a a ≡ 0
xor_self a = xor_self_below a a (omega arith)

-- Numbers with no digit to tell them apart are equal.
xor-zero : (a b : ℕ) → bit_xor a b ≡ 0 → a ≡ b
xor-zero a b h =
    let back : bit_xor (bit_xor a b) b ≡ a =
      xor_assoc a b b ∙ ap (bit_xor a) (xor_self b) ∙ xor_comm a 0 ∙ zero-xor a in
    sym back ∙ ap (λ (t : ℕ). bit_xor t b) h ∙ zero-xor b

shift-le : (k d : ℕ) → shift k d ≤ d
unfolding shift
shift-le zero d = omega arith
shift-le (suc k) d = omega (arith, shift-le k (d / 2))

shift_below : (k d : ℕ) → shift (suc k) d ≡ d → d ≡ 0
unfolding shift
shift_below k d h = omega (arith, h, shift-le k (d / 2))

telescope : (a b c : ℕ) → bit_xor (bit_xor a b) (bit_xor b c) ≡ bit_xor a c
telescope a b c =
    xor_assoc a b (bit_xor b c)
    ∙ ap (bit_xor a) (sym (xor_assoc b b c) ∙ ap (λ (t : ℕ). bit_xor t c) (xor_self b) ∙ zero-xor c)

xor_cancel : (a b c d : ℕ) → bit_xor a c ≡ bit_xor b d → bit_xor a b ≡ bit_xor c d
xor_cancel a b c d h =
    sym (telescope a c b)
    ∙ ap (λ (t : ℕ). bit_xor t (bit_xor c b)) (h ∙ xor_comm b d)
    ∙ ap (bit_xor (bit_xor d b)) (xor_comm c b)
    ∙ telescope d b c
    ∙ xor_comm d c

-- `z ^ (z >> k)` tells all numbers apart, for a shift of at least one place.
xor-shift_injective :
    (k a b : ℕ) → bit_xor a (shift (suc k) a) ≡ bit_xor b (shift (suc k) b) → a ≡ b
xor-shift_injective k a b h =
    let d = bit_xor a b in
    let fixed : shift (suc k) d ≡ d =
      shift-xor (suc k) a b ∙ sym (xor_cancel a b (shift (suc k) a) (shift (suc k) b) h) in
    xor-zero a b (shift_below k d fixed)

shift_30 : (z : ℕ) → z / 2 ^ 30 ≡ shift 30 z
unfolding shift
shift_30 z = omega arith

shift_27 : (z : ℕ) → z / 2 ^ 27 ≡ shift 27 z
unfolding shift
shift_27 z = omega arith

shift_31 : (z : ℕ) → z / 2 ^ 31 ≡ shift 31 z
unfolding shift
shift_31 z = omega arith

-- Each of the three steps keeps words apart, and so the whole does.
xor_shift_30 : (a b : ℕ) → xor_shift 30 a ≡ xor_shift 30 b → a ≡ b
xor_shift_30 a b h = xor-shift_injective 29 a b (rw (shift_30 a, shift_30 b) at h)

xor_shift_27 : (a b : ℕ) → xor_shift 27 a ≡ xor_shift 27 b → a ≡ b
xor_shift_27 a b h = xor-shift_injective 26 a b (rw (shift_27 a, shift_27 b) at h)

xor_shift_31 : (a b : ℕ) → xor_shift 31 a ≡ xor_shift 31 b → a ≡ b
xor_shift_31 a b h = xor-shift_injective 30 a b (rw (shift_31 a, shift_31 b) at h)

xor_shift-lt : (k z : ℕ) → z / 2 ^ k ≤ z → z < 2 ^ 64 → xor_shift k z < 2 ^ 64
xor_shift-lt k z le h = xor-lt 64 z (z / 2 ^ k) h (omega (arith, le, h))

mix_injective : (a b : ℕ) → a < 2 ^ 64 → b < 2 ^ 64 → mix a ≡ mix b → a ≡ b
unfolding mix
mix_injective a b ha hb h =
    let a₁ = xor_shift 30 a in
    let b₁ = xor_shift 30 b in
    let a₂ = xor_shift 27 (wrapping_mul mul_first a₁) in
    let b₂ = xor_shift 27 (wrapping_mul mul_first b₁) in
    let second : wrapping_mul mul_second a₂ ≡ wrapping_mul mul_second b₂ = xor_shift_31 _ _ h in
    let xs : a₂ ≡ b₂ =
      sym (
        mul_second_inverse a₂
          (xor_shift-lt 27 (wrapping_mul mul_first a₁) (omega arith) (omega arith)))
      ∙ ap (λ (t : ℕ). t * 0x3196_42B2_D24D_8EC3 % 2 ^ 64) second
      ∙ mul_second_inverse b₂
          (xor_shift-lt 27 (wrapping_mul mul_first b₁) (omega arith) (omega arith)) in
    let first : wrapping_mul mul_first a₁ ≡ wrapping_mul mul_first b₁ = xor_shift_27 _ _ xs in
    let ys : a₁ ≡ b₁ =
      sym (mul_first_inverse a₁ (xor_shift-lt 30 a (omega arith) ha))
      ∙ ap (λ (t : ℕ). t * 0x96DE_1B17_3F11_9089 % 2 ^ 64) first
      ∙ mul_first_inverse b₁ (xor_shift-lt 30 b (omega arith) hb) in
    xor_shift_30 a b ys

-- The generator after `n` calls, and the word that call number `n` (from zero) returns.
abbrev pub after : ℕ → ℕ → ℕ
after zero rng = rng
after (suc n) rng = (next_u64 (after n rng)).0

abbrev pub word : ℕ → ℕ → ℕ
word n rng = (next_u64 (after n rng)).1

after-sum : (n rng : ℕ) → rng < 2 ^ 64 → after n rng ≡ (rng + n * golden) % 2 ^ 64
unfolding next_u64 advance
after-sum zero rng h = omega arith
after-sum (suc n) rng h = omega (arith, after-sum n rng h)

-- From any seed, calls to `next_u64` fewer than 2^64 apart return different words.
pub word_injective :
    (seed i j : ℕ) → seed < 2 ^ 64 → i < 2 ^ 64 → j < 2 ^ 64 → word i seed ≡ word j seed → i ≡ j
unfolding next_u64
word_injective seed i j h hi hj e =
    let states : advance (after i seed) ≡ advance (after j seed) =
      mix_injective _ _ (unfold advance in omega arith) (unfold advance in omega arith) e in
    let sums : ((seed + i * golden) % 2 ^ 64 + golden) % 2 ^ 64
        ≡ ((seed + j * golden) % 2 ^ 64 + golden) % 2 ^ 64 =
      unfold advance in rw (after-sum i seed h, after-sum j seed h) at states in
    let same : i * golden % 2 ^ 64 ≡ j * golden % 2 ^ 64 = omega (arith, sums) in
    sym (golden_inverse i hi)
    ∙ ap (λ (t : ℕ). t * 0xF1DE_83E1_9937_733D % 2 ^ 64) same
    ∙ golden_inverse j hj
