-- ===== src/Base/Merge.antt =====
-- Maps merged one after another by `extend`. Where each key can stand in one map only, the merge
-- loses nothing.
use mathlib.Core.List.{append_assoc, append-nil}
use mathlib.Core.Path.{◌≡◌, refl, ap, sym, ◌∙◌}
use mathlib.Core.List.{List, [], ◌∷◌, ◌++◌}
use mathlib.Core.Option.{none, some}
use mathlib.Core.Logic.{inl, inr, if_neg, ◌≢◌}
use Prim.Native.Nat.{ℕ, zero, suc, ◌+◌, ◌<◌}
use native.Mathlib.Omega.{arith}
use reth_trie_rebuild_bench.Base.Dict.{
  Dict, Eq, lookup, extend, NodupKeys, Disjoint, override, lookup-extend, extend-Disjoint,
}
use reth_trie_rebuild_bench.Base.Dict.{lookup-append, lookup-cons, lookup-cons_self}
use reth_trie_rebuild_bench.Base.Tests.{Option-cases}
use reth_trie_rebuild_bench.Base.Lists.{get_or}

module _ {ℓ} {K V : Type ℓ} ⦃e : Eq K⦄ where
  unfoldable pub merge_all : Dict K V → List (Dict K V) → Dict K V
  merge_all m [] = m
  merge_all m (d ∷ ds) = merge_all (extend m d) ds

  abbrev pub concat : List (Dict K V) → Dict K V
  concat [] = []
  concat (d ∷ ds) = d ++ concat ds

module _ {ℓ} {K V : Type ℓ} ⦃e : Eq K⦄ (place : K → ℕ) where
  -- The keys of a map have one place, and each stands once.
  pub record Keyed (k : ℕ) (d : Dict K V) : Type ℓ where
    pub at_place : (j : K) (v : V) → lookup j d ≡ some v → place j ≡ k
    pub nodup : NodupKeys d

  -- The maps of a list have the places k, k + 1, ….
  abbrev pub AllKeyed : ℕ → List (Dict K V) → Type ℓ
  AllKeyed k [] = Unit
  AllKeyed k (d ∷ ds) = Keyed k d × AllKeyed (suc k) ds

  none_elsewhere : (k : ℕ) (d : Dict K V) (j : K) → Keyed k d → place j ≢ k → lookup j d ≡ none
  none_elsewhere k d j h ne = elim (Option-cases (lookup j d)) [
    | inl absent ↦ absent
    | inr (v, found) ↦ absurd (ne (h.at_place j v found))
  ]

  -- A key's value is the one in the map of its place.
  lookup-merge_all_before :
      (k : ℕ) (m : Dict K V) (ds : List (Dict K V)) (j : K)
      → AllKeyed k ds
      → place j < k
      → lookup j (merge_all m ds) ≡ lookup j m
  unfolding merge_all
  lookup-merge_all_before k m [] j h lt = refl
  lookup-merge_all_before k m (d ∷ ds) j h lt =
      lookup-merge_all_before (suc k) (extend m d) ds j h.1 (omega arith)
      ∙ rw (lookup-extend j m d h.0.nodup, none_elsewhere k d j h.0 (omega arith))

  pub lookup-merge_all :
      (i k : ℕ) (m : Dict K V) (ds : List (Dict K V)) (j : K)
      → AllKeyed k ds
      → place j ≡ k + i
      → lookup j (merge_all m ds) ≡ override (lookup j m) (lookup j (get_or ds i []))
  unfolding merge_all lookup
  lookup-merge_all zero k m [] j h p = refl
  lookup-merge_all (suc i) k m [] j h p = refl
  lookup-merge_all zero k m (d ∷ ds) j h p =
      lookup-merge_all_before (suc k) (extend m d) ds j h.1 (omega arith)
      ∙ lookup-extend j m d h.0.nodup
  lookup-merge_all (suc i) k m (d ∷ ds) j h p =
      lookup-merge_all i (suc k) (extend m d) ds j h.1 (omega arith)
      ∙ rw (lookup-extend j m d h.0.nodup, none_elsewhere k d j h.0 (omega arith))

  abbrev pub Before : ℕ → Dict K V → Type ℓ
  Before k m = (j : K) (v : V) → lookup j m ≡ some v → place j < k

  pub Before-nil : (k : ℕ) → Before k []
  unfolding lookup
  Before-nil k j v h = absurd (cc)

  Disjoint-places :
      (k : ℕ) (m d : Dict K V)
      → Before k m
      → ((j : K) (v : V) → lookup j d ≡ some v → place j ≡ k)
      → NodupKeys d
      → Disjoint m d
  Disjoint-places k m [] b at_place u = tt
  Disjoint-places k m ((j, v) ∷ d) b at_place u = (
    elim (Option-cases (lookup j m)) [
      | inl absent ↦ absent
      | inr (w, found) ↦ absurd (omega (arith, b j w found, at_place j v (lookup-cons_self j v d)))
    ],
    Disjoint-places k m d b
        (λ i w found. elim (e.dec j i) [
          | yes same ↦ ap place (sym same) ∙ at_place j v (lookup-cons_self j v d)
          | no other ↦ at_place i w (rw (lookup-cons, if_neg (e.dec j i) other) found)
        ])
        u.1,
  )

  Before-append : (k : ℕ) (m d : Dict K V) → Before k m → Keyed k d → Before (suc k) (m ++ d)
  Before-append k m d b h j v found = elim (Option-cases (lookup j m)) [
    | inl absent ↦
        let there : lookup j d ≡ some v = rw (lookup-append j m d, absent) at found in
        omega (arith, h.at_place j v there)
    | inr (w, old) ↦ omega (arith, b j w old)
  ]

  pub merge_all-concat :
      (k : ℕ) (m : Dict K V) (ds : List (Dict K V))
      → Before k m
      → AllKeyed k ds
      → merge_all m ds ≡ m ++ concat ds
  unfolding merge_all
  merge_all-concat k m [] b h = sym (append-nil m)
  merge_all-concat k m (d ∷ ds) b h =
      rw (extend-Disjoint m d h.0.nodup (Disjoint-places k m d b h.0.at_place h.0.nodup)) (
        merge_all-concat (suc k) (m ++ d) ds (Before-append k m d b h.0) h.1
        ∙ append_assoc m d (concat ds))
