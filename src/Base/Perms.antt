-- ===== src/Base/Perms.antt =====
-- What a permutation keeps: a proposition of every element, and the length.
use mathlib.Core.HLevel.{×_prop}
use mathlib.Core.Logic.{∥∥₁_elim}
use mathlib.Core.List.{List, [], ◌∷◌, Perm, Permᴰ}
use mathlib.Core.Path.{◌≡◌, refl, subst, ◌∙◌}
use native.Mathlib.Nat.{ℕ_set}
use native.Mathlib.Omega.{arith}
use reth_trie_rebuild_bench.Base.Lists.{All, length}

module _ {ℓ} {A : Type ℓ} (P : A → Type ℓ) (prop : (a : A) → IsProp (P a)) where
  pub All-prop : (xs : List A) → IsProp (All P xs)
  All-prop [] = hlevel
  All-prop (x ∷ xs) = ×_prop (prop x) (All-prop xs)

  All-permᴰ : {xs ys : List A} → Permᴰ xs ys → All P xs → All P ys
  All-permᴰ Permᴰ.nil h = tt
  All-permᴰ (Permᴰ.cons e p) h = (subst P e h.0, All-permᴰ p h.1)
  All-permᴰ (Permᴰ.swap e f) h = (subst P f h.1.0, (subst P e h.0, h.1.1))
  All-permᴰ (Permᴰ.trans p q) h = All-permᴰ q (All-permᴰ p h)

  pub All-perm : (xs ys : List A) → Perm xs ys → All P xs → All P ys
  All-perm xs ys p h = ∥∥₁_elim p (All-prop ys) (λ d. All-permᴰ d h)

module _ {ℓ} {A : Type ℓ} where
  length-permᴰ : {xs ys : List A} → Permᴰ xs ys → length xs ≡ length ys
  length-permᴰ Permᴰ.nil = refl
  length-permᴰ (Permᴰ.cons e p) = omega (arith, length-permᴰ p)
  length-permᴰ (Permᴰ.swap e f) = refl
  length-permᴰ (Permᴰ.trans p q) = length-permᴰ p ∙ length-permᴰ q

  pub length-perm : (xs ys : List A) → Perm xs ys → length xs ≡ length ys
  length-perm xs ys p = ∥∥₁_elim p (ℕ_set _ _) length-permᴰ
