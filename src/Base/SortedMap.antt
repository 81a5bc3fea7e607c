-- ===== src/Base/SortedMap.antt =====
-- `BTreeMap` with byte strings as keys, as the list of its entries in key order.
use Prim.Native.Nat.{ℕ, Ordering}
use mathlib.Core.Path.{◌≡◌, refl}
use mathlib.Core.List.{List, [], ◌∷◌}
use mathlib.Core.Logic.{◌≢◌}
use mathlib.Core.Option.{Option, none, some}
use native.Mathlib.Omega.{arith}
use reth_trie_rebuild_bench.Base.Lists.{All}
use reth_trie_rebuild_bench.Base.Dict.{Dict}
use reth_trie_rebuild_bench.Base.Ordered.{compare_bytes}

abbrev pub Before : List ℕ → List ℕ → Type 0
Before xs ys = compare_bytes xs ys ≡ Ordering.lt

pub compare_bytes-eq : (xs ys : List ℕ) → compare_bytes xs ys ≡ Ordering.eq → xs ≡ ys
unfolding compare_bytes
compare_bytes-eq [] [] h = refl
compare_bytes-eq [] (y ∷ ys) h = cc
compare_bytes-eq (x ∷ xs) [] h = cc
compare_bytes-eq (x ∷ xs) (y ∷ ys) h = ground (arith, compare_bytes-eq xs ys)

pub compare_bytes_refl : (xs : List ℕ) → compare_bytes xs xs ≡ Ordering.eq
unfolding compare_bytes
compare_bytes_refl [] = refl
compare_bytes_refl (x ∷ xs) = ground (arith, compare_bytes_refl xs)

pub compare_bytes-gt : (xs ys : List ℕ) → compare_bytes xs ys ≡ Ordering.gt → Before ys xs
unfolding compare_bytes
compare_bytes-gt [] [] h = cc
compare_bytes-gt [] (y ∷ ys) h = cc
compare_bytes-gt (x ∷ xs) [] h = refl
compare_bytes-gt (x ∷ xs) (y ∷ ys) h = ground (arith, compare_bytes-gt xs ys)

pub compare_bytes_trans : (xs ys zs : List ℕ) → Before xs ys → Before ys zs → Before xs zs
unfolding compare_bytes
compare_bytes_trans [] [] zs h k = cc
compare_bytes_trans [] (y ∷ ys) [] h k = cc
compare_bytes_trans [] (y ∷ ys) (z ∷ zs) h k = refl
compare_bytes_trans (x ∷ xs) [] zs h k = cc
compare_bytes_trans (x ∷ xs) (y ∷ ys) [] h k = cc
compare_bytes_trans (x ∷ xs) (y ∷ ys) (z ∷ zs) h k = ground (arith, compare_bytes_trans xs ys zs)

-- The keys strictly ascend.
abbrev pub Sorted {ℓ} : {V : Type ℓ} → List (List ℕ × V) → Type ℓ
Sorted [] = Unit
Sorted (e ∷ d) = All (λ f. Before e.0 f.0) d × Sorted d

module _ {V : Type 0} where
  unfoldable pub get : List ℕ → Dict (List ℕ) V → Option V
  get k [] = none
  get k ((j, w) ∷ d) =
      let rest = get k d in
      elim (compare_bytes k j) [ Ordering.lt ↦ none | Ordering.eq ↦ some w | Ordering.gt ↦ rest ]

  unfoldable pub insert : List ℕ → V → Dict (List ℕ) V → Dict (List ℕ) V
  insert k v [] = (k, v) ∷ []
  insert k v ((j, w) ∷ d) =
      let rest = (j, w) ∷ insert k v d in
      elim (compare_bytes k j) [
        | Ordering.lt ↦ (k, v) ∷ (j, w) ∷ d
        | Ordering.eq ↦ (j, v) ∷ d
        | Ordering.gt ↦ rest
      ]

  unfoldable pub remove : List ℕ → Dict (List ℕ) V → Dict (List ℕ) V
  remove k [] = []
  remove k ((j, w) ∷ d) =
      let rest = (j, w) ∷ remove k d in
      elim (compare_bytes k j) [ Ordering.lt ↦ (j, w) ∷ d | Ordering.eq ↦ d | Ordering.gt ↦ rest ]

  pub get-insert_self : (k : List ℕ) (v : V) (d : Dict (List ℕ) V) → get k (insert k v d) ≡ some v
  unfolding get insert
  get-insert_self k v [] = ground (arith, compare_bytes_refl k)
  get-insert_self k v ((j, w) ∷ d) = ground (arith, compare_bytes_refl k, get-insert_self k v d)

  pub get-insert_ne :
      (i k : List ℕ) (v : V) (d : Dict (List ℕ) V) → i ≢ k → get i (insert k v d) ≡ get i d
  unfolding get insert
  get-insert_ne i k v [] h = ground (arith, compare_bytes-eq i k)
  get-insert_ne i k v ((j, w) ∷ d) h = ground (
    arith,
    compare_bytes-eq i k,
    compare_bytes-eq k j,
    compare_bytes_trans i k j,
    get-insert_ne i k v d h,
  )

  -- Below the least key there is nothing.
  get-below : (k : List ℕ) (d : Dict (List ℕ) V) → All (λ f. Before k f.0) d → get k d ≡ none
  unfolding get
  get-below k [] h = refl
  get-below k ((j, w) ∷ d) h = ground (arith, h.0)

  All-Before-trans :
      (i k : List ℕ) (d : Dict (List ℕ) V)
      → Before i k
      → All (λ f. Before k f.0) d
      → All (λ f. Before i f.0) d
  All-Before-trans i k [] h a = tt
  All-Before-trans i k ((j, w) ∷ d) h a =
      (compare_bytes_trans i k j h a.0, All-Before-trans i k d h a.1)

  pub get-remove_self : (k : List ℕ) (d : Dict (List ℕ) V) → Sorted d → get k (remove k d) ≡ none
  unfolding get remove
  get-remove_self k [] s = refl
  get-remove_self k ((j, w) ∷ d) s =
      ground (arith, compare_bytes-eq k j, get-below j d s.0, get-remove_self k d s.1)

  pub get-remove_ne :
      (i k : List ℕ) (d : Dict (List ℕ) V) → Sorted d → i ≢ k → get i (remove k d) ≡ get i d
  unfolding get remove
  get-remove_ne i k [] s h = refl
  get-remove_ne i k ((j, w) ∷ d) s h =
      let below : Before i j → get i d ≡ none = λ b. get-below i d (All-Before-trans i j d b s.0) in
      ground (arith, compare_bytes-eq k j, compare_bytes-eq i j, get-remove_ne i k d s.1 h, below)

  pub All-insert :
      (P : List ℕ × V → Type 0) (k : List ℕ) (v : V) (d : Dict (List ℕ) V)
      → ((j : List ℕ) (w : V) → P (j, w) → k ≡ j → P (j, v))
      → P (k, v)
      → All P d
      → All P (insert k v d)
  unfolding insert
  All-insert P k v [] keep new h = (new, tt)
  All-insert P k v ((j, w) ∷ d) keep new h =
      ground (arith, compare_bytes-eq k j, keep j w h.0, All-insert P k v d keep new h.1)

  pub All-remove :
      (P : List ℕ × V → Type 0) (k : List ℕ) (d : Dict (List ℕ) V) → All P d → All P (remove k d)
  unfolding remove
  All-remove P k [] h = tt
  All-remove P k ((j, w) ∷ d) h = ground (arith, All-remove P k d h.1)

  pub insert-Sorted : (k : List ℕ) (v : V) (d : Dict (List ℕ) V) → Sorted d → Sorted (insert k v d)
  unfolding insert
  insert-Sorted k v [] s = (tt, tt)
  insert-Sorted k v ((j, w) ∷ d) s =
      let first : Before k j → All (λ f. Before k f.0) d = λ b. All-Before-trans k j d b s.0 in
      let later : Before j k → All (λ f. Before j f.0) (insert k v d) =
        λ b. All-insert (λ f. Before j f.0) k v d (λ i x p e. p) b s.0 in
      ground (arith, first, later, compare_bytes-gt k j, s, insert-Sorted k v d s.1)

  pub remove-Sorted : (k : List ℕ) (d : Dict (List ℕ) V) → Sorted d → Sorted (remove k d)
  unfolding remove
  remove-Sorted k [] s = tt
  remove-Sorted k ((j, w) ∷ d) s =
      ground (arith, All-remove (λ f. Before j f.0) k d s.0, remove-Sorted k d s.1)

  -- A sorted map's first key stands nowhere else, and other keys are found in the rest.
  pub get-first : (j : List ℕ) (w : V) (d : Dict (List ℕ) V) → Sorted ((j, w) ∷ d) → get j d ≡ none
  get-first j w d s = get-below j d s.0

  pub get-cons_ne :
      (i j : List ℕ) (w : V) (d : Dict (List ℕ) V)
      → Sorted ((j, w) ∷ d)
      → i ≢ j
      → get i ((j, w) ∷ d) ≡ get i d
  unfolding get
  get-cons_ne i j w d s h =
      let below : Before i j → get i d ≡ none = λ b. get-below i d (All-Before-trans i j d b s.0) in
      ground (arith, below, compare_bytes-eq i j)

  pub get-cons_self : (j : List ℕ) (w : V) (d : Dict (List ℕ) V) → get j ((j, w) ∷ d) ≡ some w
  unfolding get
  get-cons_self j w d = ground (arith, compare_bytes_refl j)
