-- ===== src/Base/Ordered.antt =====
-- Byte strings in lexicographic order, as `Ord` derives it for arrays, and maps sorted by it.
use Prim.Native.Nat.{ℕ, compare, Ordering}
use mathlib.Core.List.Perm
use mathlib.Core.Path.{◌≡◌, refl, ap}
use mathlib.Core.List.{List, [], ◌∷◌, Perm, map}
use reth_trie_rebuild_bench.Base.Dict.{Dict}

unfoldable pub compare_bytes : List ℕ → List ℕ → Ordering
compare_bytes [] [] = Ordering.eq
compare_bytes [] (y ∷ ys) = Ordering.lt
compare_bytes (x ∷ xs) [] = Ordering.gt
compare_bytes (x ∷ xs) (y ∷ ys) =
    let rest = compare_bytes xs ys in
    elim (compare x y) [
      | Ordering.lt ↦ Ordering.lt
      | Ordering.eq ↦ rest
      | Ordering.gt ↦ Ordering.gt
    ]

module _ {V : Type 0} where
  -- `sort_unstable_by(|a, b| a.0.cmp(b.0))`
  abbrev pub place_by_key : List ℕ × V → Dict (List ℕ) V → Dict (List ℕ) V
  place_by_key e [] = e ∷ []
  place_by_key e (f ∷ d) =
      let rest = f ∷ place_by_key e d in
      elim (compare_bytes e.0 f.0) [ Ordering.gt ↦ rest | _ ↦ e ∷ f ∷ d ]

  unfoldable pub sort_by_key : Dict (List ℕ) V → Dict (List ℕ) V
  unfolding compare_bytes
  sort_by_key [] = []
  sort_by_key (e ∷ d) = place_by_key e (sort_by_key d)

  place_by_key-perm : (e : List ℕ × V) (d : Dict (List ℕ) V) → Perm (place_by_key e d) (e ∷ d)
  place_by_key-perm e [] = Perm.rfl
  place_by_key-perm e (f ∷ d) =
      go (compare_bytes e.0 f.0)
        (Perm.trans (Perm.cons f (place_by_key-perm e d)) (Perm.swap e f d))
    where
      go :
          (o : Ordering)
          → Perm (f ∷ place_by_key e d) (e ∷ f ∷ d)
          → Perm
              (let rest = f ∷ place_by_key e d in elim o [ Ordering.gt ↦ rest | _ ↦ e ∷ f ∷ d ])
              (e ∷ f ∷ d)
      go Ordering.lt p = Perm.rfl
      go Ordering.eq p = Perm.rfl
      go Ordering.gt p = p

  pub sort_by_key-perm : (d : Dict (List ℕ) V) → Perm (sort_by_key d) d
  unfolding sort_by_key
  sort_by_key-perm [] = Perm.nil
  sort_by_key-perm (e ∷ d) =
      Perm.trans (place_by_key-perm e (sort_by_key d)) (Perm.cons e (sort_by_key-perm d))

-- Sorting looks at the keys alone.
module _ {V W : Type 0} (f : V → W) where
  abbrev pub on_value : List ℕ × V → List ℕ × W
  on_value (k, v) = (k, f v)

  place_by_key-map :
      (k : List ℕ) (v : V) (d : Dict (List ℕ) V)
      → place_by_key (k, f v) (map on_value d) ≡ map on_value (place_by_key (k, v) d)
  place_by_key-map k v [] = refl
  place_by_key-map k v ((j, w) ∷ d) = go (compare_bytes k j) (place_by_key-map k v d)
    where
      go :
          (o : Ordering)
          → place_by_key (k, f v) (map on_value d) ≡ map on_value (place_by_key (k, v) d)
          → (let rest = (j, f w) ∷ place_by_key (k, f v) (map on_value d) in
              elim o [ Ordering.gt ↦ rest | _ ↦ (k, f v) ∷ (j, f w) ∷ map on_value d ])
            ≡ map on_value (
                let rest = (j, w) ∷ place_by_key (k, v) d in
                elim o [ Ordering.gt ↦ rest | _ ↦ (k, v) ∷ (j, w) ∷ d ])
      go Ordering.lt h = refl
      go Ordering.eq h = refl
      go Ordering.gt h = ap (◌∷◌ (j, f w)) h

  pub sort_by_key-map :
      (d : Dict (List ℕ) V) → sort_by_key (map on_value d) ≡ map on_value (sort_by_key d)
  unfolding sort_by_key
  sort_by_key-map [] = refl
  sort_by_key-map ((k, v) ∷ d) = rw (sort_by_key-map d) (place_by_key-map k v (sort_by_key d))
