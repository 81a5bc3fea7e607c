-- ===== src/Alloc/Human/Float.antt =====
-- Rounding, and the float of a byte count.
use native.Mathlib.Nat.{
  pow-suc, div-add-mod, mod-lt, mul_comm, suc-mul, mul-one, one-le-pow, mul-le-mul_right,
}
use reth_trie_rebuild_bench.Base.{
  ℕ, zero, suc, ◌+◌, ◌*◌, ◌/◌, ◌%◌, ◌^◌, ◌≤◌, ◌<◌, ◌≡◌, refl, ap, ◌∙◌, true, false, ltb, ◌==◌,
  arith, dec_lt, ◌⊎◌, inl, inr, Bool-cases,
}
use reth_trie_rebuild_bench.Alloc.Human.{round_half_even, excess_bits, to_f64}

-- Down where the rest is at most half of `d`, up where it is at least half.
round_half_even-either :
    (n d : ℕ)
    → ((round_half_even n d ≡ n / d) × (2 * (n % d) ≤ d))
      ⊎ ((round_half_even n d ≡ n / d + 1) × (d ≤ 2 * (n % d)))
unfolding round_half_even
round_half_even-either n d = elim (dec_lt (2 * (n % d)) d) [
  | yes small ↦
      let test : ltb (2 * (n % d)) d ≡ true = ground arith in
      inl (rw test refl, omega (arith, small))
  | no large ↦ elim (dec_lt d (2 * (n % d))) [
    | yes over ↦
        let test : ltb (2 * (n % d)) d ≡ false = ground arith in
        let test' : ltb d (2 * (n % d)) ≡ true = ground arith in
        inr (rw (test, test') refl, omega (arith, over))
    | no under ↦
        let test : ltb (2 * (n % d)) d ≡ false = ground arith in
        let test' : ltb d (2 * (n % d)) ≡ false = ground arith in
        elim (Bool-cases (n / d % 2 == 0)) [
          | inl even ↦ inl (rw (test, test', even) refl, omega (arith, large, under))
          | inr odd ↦ inr (rw (test, test', odd) refl, omega (arith, large, under))
        ]
  ]
]

-- The result is off by at most half of `d`.
pub round_half_even_lem :
    (n d : ℕ)
    → 0 < d
    → (2 * n ≤ 2 * (round_half_even n d * d) + d) × (2 * (round_half_even n d * d) ≤ 2 * n + d)
round_half_even_lem n d pos =
    let whole = div-add-mod n d in
    let rest = mod-lt n pos in
    let order = mul_comm d (n / d) in
    elim (round_half_even-either n d) [
      | inl (down, small) ↦
          rw down
            (omega (arith, whole, rest, order, small), omega (arith, whole, rest, order, small))
      | inr (up, large) ↦
          let more = suc-mul (n / d) d in
          let next : (n / d + 1) * d ≡ n / d * d + d = ap (λ t. t * d) (omega arith) ∙ more in
          rw up (
            omega (arith, whole, rest, order, large, next),
            omega (arith, whole, rest, order, large, next),
          )
    ]

-- A multiple of a number is not rounded.
round_half_even-one : (n : ℕ) → round_half_even n 1 ≡ n
unfolding round_half_even
round_half_even-one n = ground arith

-- No more bits are dropped than must be.
excess_bits-tight : (fuel n : ℕ) → (excess_bits fuel n ≡ 0) ⊎ (2 ^ 52 * 2 ^ excess_bits fuel n ≤ n)
unfolding excess_bits
excess_bits-tight zero n = inl refl
excess_bits-tight (suc fuel) n = elim (dec_lt n (2 ^ 53)) [
  | yes fits ↦ let test : ltb n (2 ^ 53) ≡ true = ground arith in rw test (inl refl)
  | no large ↦
      let test : ltb n (2 ^ 53) ≡ false = ground arith in
      let power = pow-suc 2 (excess_bits fuel (n / 2)) in
      rw test (
        inr (elim (excess_bits-tight fuel (n / 2)) [
          | inl none_left ↦
              let one : 2 ^ excess_bits fuel (n / 2) ≡ 1 = ap (λ t. 2 ^ t) none_left in
              omega (arith, one, power, large)
          | inr h ↦ omega (arith, h, power)
        ]))
]

excess_bits-small : (fuel n : ℕ) → n < 2 ^ 53 → excess_bits fuel n ≡ 0
unfolding excess_bits
excess_bits-small zero n h = refl
excess_bits-small (suc fuel) n h = let fits : ltb n (2 ^ 53) ≡ true = ground arith in rw fits refl

-- Without those bits a number has at most 53.
excess_bits-lt : (fuel n : ℕ) → n < 2 ^ 53 * 2 ^ fuel → n < 2 ^ 53 * 2 ^ excess_bits fuel n
unfolding excess_bits
excess_bits-lt zero n h = h
excess_bits-lt (suc fuel) n h = elim (dec_lt n (2 ^ 53)) [
  | yes fits ↦ let test : ltb n (2 ^ 53) ≡ true = ground arith in rw test (omega (arith, fits))
  | no large ↦
      let test : ltb n (2 ^ 53) ≡ false = ground arith in
      let half = excess_bits-lt fuel (n / 2) (omega (arith, h, pow-suc 2 fuel)) in
      rw test (omega (arith, half, pow-suc 2 (excess_bits fuel (n / 2))))
]

-- The nearest `f64` to a byte count: a multiple of `2 ^ excess`, where no fewer bits fit the 53 of
-- the mantissa.
pub record IsFloatOf (bytes value : ℕ) : Type 0 where
  pub mantissa : ℕ
  pub excess : ℕ
  pub value_is : value ≡ mantissa * 2 ^ excess
  pub short : mantissa ≤ 2 ^ 53
  pub tight : (excess ≡ 0) ⊎ (2 ^ 52 * 2 ^ excess ≤ bytes)
  pub exact : bytes < 2 ^ 53 → value ≡ bytes
  pub near : (2 * bytes ≤ 2 * value + 2 ^ excess) × (2 * value ≤ 2 * bytes + 2 ^ excess)

pub to_f64-IsFloatOf : (bytes : ℕ) → bytes < 2 ^ 64 → IsFloatOf bytes (to_f64 bytes)
unfolding to_f64
to_f64-IsFloatOf bytes fits =
    let k = excess_bits 11 bytes in
    let m = round_half_even bytes (2 ^ k) in
    let (low, high) = round_half_even_lem bytes (2 ^ k) (one-le-pow k 2 (omega arith)) in
    record {
      mantissa = m;
      excess = k;
      value_is = refl;
      short = short m (2 ^ k) high (excess_bits-lt 11 bytes (omega (arith, fits)));
      tight = excess_bits-tight 11 bytes;
      exact = exact;
      near = (low, high);
    }
  where
    exact :
        bytes < 2 ^ 53
        → round_half_even bytes (2 ^ excess_bits 11 bytes) * 2 ^ excess_bits 11 bytes ≡ bytes
    exact small =
        rw (excess_bits-small 11 bytes small)
          (mul-one (round_half_even bytes 1) ∙ round_half_even-one bytes)

    short : (m p : ℕ) → 2 * (m * p) ≤ 2 * bytes + p → bytes < 2 ^ 53 * p → m ≤ 2 ^ 53
    short m p high below = elim (dec_lt (2 ^ 53) m) [
      | no within ↦ omega (arith, within)
      | yes over ↦
          let more : suc (2 ^ 53) * p ≤ m * p = mul-le-mul_right p (omega (arith, over)) in
          absurd (omega (arith, more, suc-mul (2 ^ 53) p, high, below))
    ]
