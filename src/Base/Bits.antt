-- ===== src/Base/Bits.antt =====
-- The bit operations at variables: one equation for the lowest digit, and the laws of `^` and `|`
-- that the digests rest on, for numbers of any width.
use Prim.Native.Nat.{ℕ, zero, suc, ◌+◌, ◌*◌, ◌/◌, ◌%◌, ◌^◌, ◌≤◌, ◌<◌, max, bit_or, bit_xor}
use Prim.Native.Nat.{digits, bitwise, bit_or-bitwise, bit_xor-bitwise, differ}
use mathlib.Core.Path.{◌≡◌, refl, ap, ◌∙◌}
use native.Mathlib.Nat.{le_refl, pow-suc, mul-one}
use native.Mathlib.Decide.{ℕ_discrete}
use native.Mathlib.Omega.{arith}

module _ (rest : ℕ → ℕ) (op : ℕ → ℕ → ℕ) where
  -- Once there is fuel for all digits of `x`, one unit more changes nothing, and so do many.
  one_more : (n x y : ℕ) → x ≤ n → digits rest op (suc n) x y ≡ digits rest op n x y
  one_more zero zero y h = refl
  one_more zero (suc x) y h = absurd (omega arith)
  one_more (suc n) zero y h = refl
  one_more (suc n) (suc x) y h =
      let ih = one_more n (suc x / 2) (y / 2) (omega arith) in
      ap (λ (t : ℕ). t * 2 + op (suc x % 2) (y % 2)) ih

  spare : (n k x y : ℕ) → x ≤ k → k ≤ n → digits rest op n x y ≡ digits rest op k x y
  spare zero zero x y h l = refl
  spare zero (suc k) x y h l = absurd (omega arith)
  spare (suc n) k x y h l = elim (ℕ_discrete k (suc n)) [
    | yes all ↦ rw all
    | no fewer ↦ one_more n x y (omega arith) ∙ spare n k x y h (omega arith)
  ]

  low_digit :
      (x y : ℕ)
      → bitwise rest op (suc x) y ≡ op (suc x % 2) (y % 2) + 2 * bitwise rest op (suc x / 2) (y / 2)
  low_digit x y = omega (arith, spare x (suc x / 2) (suc x / 2) (y / 2) (le_refl _) (omega arith))

pub or_low_digit : (x y : ℕ) → bit_or x y ≡ max (x % 2) (y % 2) + 2 * bit_or (x / 2) (y / 2)
or_low_digit zero y = simp bit_or-bitwise (omega arith)
or_low_digit (suc x) y = simp bit_or-bitwise (low_digit (λ t. t) max x y)

-- The exclusive or of two digits, as a sum.
differ_small : (x y : ℕ) → x < 2 → y < 2 → differ x y ≡ (x + y) % 2
differ_small zero y p q = omega arith
differ_small (suc zero) zero p q = refl
differ_small (suc zero) (suc zero) p q = refl
differ_small (suc zero) (suc (suc y)) p q = absurd (omega arith)
differ_small (suc (suc x)) y p q = absurd (omega arith)

xor_digit : (a b : ℕ) → differ (a % 2) (b % 2) ≡ (a + b) % 2
xor_digit a b = omega (arith, differ_small (a % 2) (b % 2) (omega arith) (omega arith))

pub xor_low_digit : (x y : ℕ) → bit_xor x y ≡ (x + y) % 2 + 2 * bit_xor (x / 2) (y / 2)
xor_low_digit zero y = simp bit_xor-bitwise (omega arith)
xor_low_digit (suc x) y =
    simp bit_xor-bitwise (omega (arith, low_digit (λ t. t) differ x y, xor_digit (suc x) y))

-- All laws go by induction on a bound for the operands.
xor_comm_below : (n a b : ℕ) → a ≤ n → b ≤ n → bit_xor a b ≡ bit_xor b a
xor_comm_below zero zero zero p q = refl
xor_comm_below zero (suc a) b p q = absurd (omega arith)
xor_comm_below zero zero (suc b) p q = absurd (omega arith)
xor_comm_below (suc n) a b p q = omega (
  arith,
  xor_low_digit a b,
  xor_low_digit b a,
  xor_comm_below n (a / 2) (b / 2) (omega arith) (omega arith),
)

pub xor_comm : (a b : ℕ) → bit_xor a b ≡ bit_xor b a
xor_comm a b = xor_comm_below (a + b) a b (omega arith) (omega arith)

pub zero-xor : (b : ℕ) → bit_xor 0 b ≡ b
zero-xor b = bit_xor-bitwise 0 b

xor_half : (a b : ℕ) → bit_xor a b / 2 ≡ bit_xor (a / 2) (b / 2)
xor_half a b = omega (arith, xor_low_digit a b)

xor_low : (a b : ℕ) → bit_xor a b % 2 ≡ (a + b) % 2
xor_low a b = omega (arith, xor_low_digit a b)

xor_assoc_below :
    (n a b c : ℕ) → a ≤ n → b ≤ n → c ≤ n → bit_xor (bit_xor a b) c ≡ bit_xor a (bit_xor b c)
xor_assoc_below zero zero b c p q r = rw (zero-xor b, zero-xor (bit_xor b c))
xor_assoc_below zero (suc a) b c p q r = absurd (omega arith)
xor_assoc_below (suc n) a b c p q r = omega (
  arith,
  xor_low_digit (bit_xor a b) c,
  xor_low_digit a (bit_xor b c),
  ap (λ (t : ℕ). bit_xor t (c / 2)) (xor_half a b),
  ap (λ (t : ℕ). bit_xor (a / 2) t) (xor_half b c),
  xor_low a b,
  xor_low b c,
  xor_assoc_below n (a / 2) (b / 2) (c / 2) (omega arith) (omega arith) (omega arith),
)

pub xor_assoc : (a b c : ℕ) → bit_xor (bit_xor a b) c ≡ bit_xor a (bit_xor b c)
xor_assoc a b c = xor_assoc_below (a + b + c) a b c (omega arith) (omega arith) (omega arith)

pub xor-lt : (k a b : ℕ) → a < 2 ^ k → b < 2 ^ k → bit_xor a b < 2 ^ k
xor-lt zero zero b p q = omega (arith, zero-xor b)
xor-lt zero (suc a) b p q = absurd (omega arith)
xor-lt (suc k) a b p q = omega (
  arith,
  pow-suc 2 k,
  xor_low_digit a b,
  xor-lt k (a / 2) (b / 2) (omega (arith, pow-suc 2 k)) (omega (arith, pow-suc 2 k)),
)

or-zero_below : (n a : ℕ) → a ≤ n → bit_or a 0 ≡ a
or-zero_below n zero h = refl
or-zero_below zero (suc a) h = absurd (omega arith)
or-zero_below (suc n) (suc a) h =
    omega (arith, or_low_digit (suc a) 0, or-zero_below n (suc a / 2) (omega arith))

-- The or of a number shifted left by `k` places with one of `k` digits is their sum.
pub or-add : (k h l : ℕ) → l < 2 ^ k → bit_or (h * 2 ^ k) l ≡ h * 2 ^ k + l
or-add zero h zero p = rw (mul-one h) (omega (arith, or-zero_below h h (omega arith)))
or-add zero h (suc l) p = absurd (omega arith)
or-add (suc k) h l p =
    let shift : h * 2 ^ suc k ≡ h * (2 ^ k * 2) = ap (λ (t : ℕ). h * t) (pow-suc 2 k) in
    let half : h * 2 ^ suc k / 2 ≡ h * 2 ^ k = omega (arith, shift) in
    omega (
      arith,
      shift,
      pow-suc 2 k,
      or_low_digit (h * 2 ^ suc k) l,
      ap (λ (t : ℕ). bit_or t (l / 2)) half,
      or-add k h (l / 2) (omega (arith, pow-suc 2 k)),
    )
