-- ===== src/Tables/Ranges.antt =====
-- The sixteen address ranges hold every address once.
use Prim.Native.Nat.{Ordering}
use mathlib.Core.List.{perm_middle}
use mathlib.Core.List.Perm
use reth_trie_rebuild_bench.Base.{
  ℕ, zero, suc, ◌+◌, ◌*◌, ◌/◌, ◌≤◌, ◌<◌, ◌≡◌, ◌≢◌, refl, Bool, true, false, List, [], ◌∷◌, ◌++◌,
  Perm, All, length, replicate, arith, bit_or, ℕ_discrete, if◌then◌else◌, get_or, ◌==◌,
}
use reth_trie_rebuild_bench.Base.Bits.{or-add}
use reth_trie_rebuild_bench.Base.Ordered.{compare_bytes}
use reth_trie_rebuild_bench.Trie.{B256, IsB256}
use reth_trie_rebuild_bench.Tables.{low, high}

-- `low..=high` contains `a`.
unfoldable pub in_range : B256 → B256 → B256 → Bool
in_range l h a = elim (compare_bytes a l) [
  | Ordering.lt ↦ false
  | _ ↦ elim (compare_bytes a h) [ Ordering.gt ↦ false | _ ↦ true ]
]

zeros_least : (n : ℕ) (a : List ℕ) → length a ≡ n → compare_bytes a (replicate n 0) ≢ Ordering.lt
unfolding compare_bytes
zeros_least zero [] h e = cc
zeros_least zero (b ∷ a) h e = absurd (omega arith)
zeros_least (suc n) [] h e = absurd (omega arith)
zeros_least (suc n) (b ∷ a) h e = ground (arith, zeros_least n a)

ones_greatest :
    (n : ℕ) (a : List ℕ)
    → length a ≡ n
    → All (λ b. b < 256) a
    → compare_bytes a (replicate n 0xff) ≢ Ordering.gt
unfolding compare_bytes
ones_greatest zero [] h w e = cc
ones_greatest zero (b ∷ a) h w e = absurd (omega arith)
ones_greatest (suc n) [] h w e = absurd (omega arith)
ones_greatest (suc n) (b ∷ a) h w e = ground (arith, ones_greatest n a, w.0, w.1)

high_byte : (n : ℕ) → bit_or (n * 16) 0xf ≡ n * 16 + 15
high_byte n = or-add 4 n 15 (omega arith)

-- An address is in the range of its first nibble and in no other.
pub in_range-nibble :
    (n : ℕ) (a : B256) → IsB256 a → in_range (low n) (high n) a ≡ (get_or a 0 0 / 16 == n)
unfolding in_range compare_bytes
in_range-nibble n [] w = absurd (omega arith)
in_range-nibble n (b ∷ a) w =
    ground (arith, high_byte n, zeros_least 31 a, ones_greatest 31 a, w.0, w.1)

unfoldable pub filter {ℓ} : {A : Type ℓ} → (A → Bool) → List A → List A
filter p [] = []
filter p (x ∷ xs) = let rest = filter p xs in if p x then x ∷ rest else rest

pub filter-cong :
    {A : Type 0} (P : A → Type 0) (p q : A → Bool) (xs : List A)
    → ((x : A) → P x → p x ≡ q x)
    → All P xs
    → filter p xs ≡ filter q xs
unfolding filter
filter-cong P p q [] h w = refl
filter-cong P p q (x ∷ xs) h w = rw (h x w.0, filter-cong P p q xs h w.1)

module _ {A : Type 0} (key : A → ℕ) where
  -- The elements with the key 0, then those with 1, and so on below `k`.
  unfoldable pub buckets : ℕ → List A → List A
  buckets zero xs = []
  buckets (suc k) xs = buckets k xs ++ filter (λ x. key x == k) xs

  buckets-nil : (k : ℕ) → buckets k [] ≡ []
  unfolding buckets filter
  buckets-nil zero = refl
  buckets-nil (suc k) = rw (buckets-nil k) refl

  buckets-other : (k : ℕ) (x : A) (xs : List A) → k ≤ key x → buckets k (x ∷ xs) ≡ buckets k xs
  unfolding buckets filter
  buckets-other zero x xs h = refl
  buckets-other (suc k) x xs h =
      let test : (key x == k) ≡ false = ground arith in
      rw (test, buckets-other k x xs (omega arith)) refl

  buckets-own :
      (k : ℕ) (x : A) (xs : List A) → key x < k → Perm (buckets k (x ∷ xs)) (x ∷ buckets k xs)
  unfolding buckets filter
  buckets-own zero x xs h = absurd (omega arith)
  buckets-own (suc k) x xs h = elim (ℕ_discrete (key x) k) [
    | yes here ↦
        let test : (key x == k) ≡ true = ground arith in
        rw (test, buckets-other k x xs (omega arith))
          (perm_middle (buckets k xs) (filter (λ x. key x == k) xs))
    | no there ↦
        let test : (key x == k) ≡ false = ground arith in
        rw test (Perm.append_right (filter (λ x. key x == k) xs) (buckets-own k x xs (omega arith)))
  ]

  pub buckets-perm : (k : ℕ) (xs : List A) → All (λ x. key x < k) xs → Perm (buckets k xs) xs
  buckets-perm k [] w = rw (buckets-nil k) Perm.nil
  buckets-perm k (x ∷ xs) w =
      Perm.trans (buckets-own k x xs w.0) (Perm.cons x (buckets-perm k xs w.1))
