-- ===== src/Base/Dict.antt =====
-- Maps with decidable keys, as association lists. A key is written in place if it is there, and
-- at the end if it is new. Iteration order is the list's; what depends on it is proved up to `Perm`.
use mathlib.Core.List.{append_assoc, append-nil}
use mathlib.Core.Logic.{ite, if_pos, if_neg}
use mathlib.Core.Path.{◌≡◌, refl, sym, subst, ◌∙◌}
use mathlib.Core.List.{List, [], ◌∷◌, ◌++◌}
use mathlib.Core.Option.{Option, none, some, some-injective}
use native.Mathlib.Omega.{arith}
use reth_trie_rebuild_bench.Base.Lists.{All}

-- Types whose equality is decided.
pub record Eq {ℓ} (A : Type ℓ) : Type ℓ where
  pub dec : Discrete A

abbrev pub Dict {ℓ} : Type ℓ → Type ℓ → Type ℓ
Dict K V = List (K × V)

-- The value of the second map where it has one, and of the first elsewhere.
abbrev pub override {ℓ} : {V : Type ℓ} → Option V → Option V → Option V
override old none = old
override old (some v) = some v

module _ {ℓ} {K V : Type ℓ} ⦃e : Eq K⦄ where
  unfoldable pub lookup : K → Dict K V → Option V
  lookup k [] = none
  lookup k ((j, v) ∷ d) = ite (e.dec j k) (some v) (lookup k d)

  unfoldable pub insert : K → V → Dict K V → Dict K V
  insert k v [] = (k, v) ∷ []
  insert k v ((j, w) ∷ d) = ite (e.dec j k) ((j, v) ∷ d) ((j, w) ∷ insert k v d)

  -- `m.extend(d)`
  unfoldable pub extend : Dict K V → Dict K V → Dict K V
  extend m [] = m
  extend m ((k, v) ∷ d) = extend (insert k v m) d

  unfoldable pub erase : K → Dict K V → Dict K V
  erase k [] = []
  erase k ((j, w) ∷ d) = let rest = erase k d in ite (e.dec j k) rest ((j, w) ∷ rest)

  abbrev pub NodupKeys : Dict K V → Type ℓ
  NodupKeys [] = Unit
  NodupKeys ((k, _) ∷ d) = (lookup k d ≡ none) × NodupKeys d

  -- No key of the second map is a key of the first.
  abbrev pub Disjoint : Dict K V → Dict K V → Type ℓ
  Disjoint m [] = Unit
  Disjoint m ((k, _) ∷ d) = (lookup k m ≡ none) × Disjoint m d

module _ {ℓ} {K V : Type ℓ} ⦃e : Eq K⦄ where
  pub lookup-cons :
      (j k : K) (v : V) (d : Dict K V)
      → lookup j ((k, v) ∷ d) ≡ ite (e.dec k j) (some v) (lookup j d)
  unfolding lookup
  lookup-cons j k v d = refl

  pub lookup-cons_self : (k : K) (v : V) (d : Dict K V) → lookup k ((k, v) ∷ d) ≡ some v
  lookup-cons_self k v d = rw (lookup-cons, if_pos (e.dec k k) refl)

  pub lookup-insert :
      (j k : K) (v : V) (d : Dict K V)
      → lookup j (insert k v d) ≡ ite (e.dec k j) (some v) (lookup j d)
  unfolding lookup insert
  lookup-insert j k v [] = refl
  lookup-insert j k v ((i, w) ∷ d) = ground (arith, lookup-insert j k v d)

  pub lookup-erase :
      (j k : K) (d : Dict K V) → lookup j (erase k d) ≡ ite (e.dec k j) none (lookup j d)
  unfolding lookup erase
  lookup-erase j k [] = ground arith
  lookup-erase j k ((i, w) ∷ d) = ground (arith, lookup-erase j k d)

  pub lookup-append :
      (k : K) (m d : Dict K V) → lookup k (m ++ d) ≡ override (lookup k d) (lookup k m)
  unfolding lookup
  lookup-append k [] d = refl
  lookup-append k ((j, w) ∷ m) d = ground (arith, lookup-append k m d)

  -- A new key goes to the end.
  pub insert_fresh :
      (k : K) (v : V) (d : Dict K V) → lookup k d ≡ none → insert k v d ≡ d ++ (k, v) ∷ []
  unfolding lookup insert
  insert_fresh k v [] h = refl
  insert_fresh k v ((j, w) ∷ d) h = ground (arith, insert_fresh k v d)

  -- A key that is there is written where it stands.
  pub insert_present :
      (k : K) (w v : V) (d : Dict K V)
      → lookup k d ≡ some w
      → (l r : Dict K V) × (d ≡ l ++ (k, w) ∷ r) × (insert k v d ≡ l ++ (k, v) ∷ r)
  unfolding lookup insert
  insert_present k w v [] h = cc
  insert_present k w v ((j, x) ∷ d) h = elim (e.dec j k) [
    | yes here ↦ ([], d, ground arith, ground arith)
    | no there ↦
        let (l, r, p, q) = insert_present k w v d (ground arith) in
        ((j, x) ∷ l, r, rw p, rw (if_neg _ there, q))
  ]

  pub insert-NodupKeys : (k : K) (v : V) (d : Dict K V) → NodupKeys d → NodupKeys (insert k v d)
  unfolding insert
  insert-NodupKeys k v [] h = unfold lookup in (refl, tt)
  insert-NodupKeys k v ((j, w) ∷ d) h =
      ground (arith, insert-NodupKeys k v d h.1, lookup-insert j k v d)

  pub extend-NodupKeys : (m d : Dict K V) → NodupKeys m → NodupKeys (extend m d)
  unfolding extend
  extend-NodupKeys m [] h = h
  extend-NodupKeys m ((k, v) ∷ d) h = extend-NodupKeys (insert k v m) d (insert-NodupKeys k v m h)

  pub lookup-extend :
      (j : K) (m d : Dict K V)
      → NodupKeys d
      → lookup j (extend m d) ≡ override (lookup j m) (lookup j d)
  unfolding extend lookup
  lookup-extend j m [] h = refl
  lookup-extend j m ((k, v) ∷ d) h =
      ground (arith, lookup-extend j (insert k v m) d h.1, lookup-insert j k v m)

  Disjoint-insert :
      (k : K) (v : V) (m d : Dict K V)
      → lookup k d ≡ none
      → Disjoint m d
      → Disjoint (insert k v m) d
  unfolding lookup
  Disjoint-insert k v m [] h dis = tt
  Disjoint-insert k v m ((j, w) ∷ d) h dis =
      ground (arith, lookup-insert j k v m, Disjoint-insert k v m d)

  -- With no key in common nothing is overwritten, and the entries follow one another.
  pub extend-Disjoint : (m d : Dict K V) → NodupKeys d → Disjoint m d → extend m d ≡ m ++ d
  unfolding extend
  extend-Disjoint m [] h dis = sym (append-nil m)
  extend-Disjoint m ((k, v) ∷ d) h dis =
      extend-Disjoint (insert k v m) d h.1 (Disjoint-insert k v m d h.0 dis.1)
      ∙ rw (insert_fresh k v m dis.0) (append_assoc m ((k, v) ∷ []) d)

  pub Disjoint-nil : (d : Dict K V) → Disjoint [] d
  unfolding lookup
  Disjoint-nil [] = tt
  Disjoint-nil ((k, v) ∷ d) = (refl, Disjoint-nil d)

  -- What holds of every entry, and of the new one, holds after a write.
  pub All-insert {κ} :
      (P : K × V → Type κ) (k : K) (v : V) (d : Dict K V)
      → ((j : K) (w : V) → P (j, w) → P (j, v))
      → P (k, v)
      → All P d
      → All P (insert k v d)
  unfolding insert
  All-insert P k v [] keep new h = (new, tt)
  All-insert P k v ((j, w) ∷ d) keep new h = elim (e.dec j k) [
    | yes same ↦ rw (if_pos (e.dec j k) same) (keep j w h.0, h.1)
    | no other ↦ rw (if_neg (e.dec j k) other) (h.0, All-insert P k v d keep new h.1)
  ]

  pub All-lookup {κ} :
      (P : V → Type κ) (k : K) (v : V) (d : Dict K V)
      → All (λ e. P e.1) d
      → lookup k d ≡ some v
      → P v
  unfolding lookup
  All-lookup P k v [] h found = absurd (cc)
  All-lookup P k v ((j, w) ∷ d) h found = elim (e.dec j k) [
    | yes same ↦ subst P (some-injective w v (rw (if_pos (e.dec j k) same) at found)) h.0
    | no other ↦ All-lookup P k v d h.1 (rw (if_neg (e.dec j k) other) at found)
  ]
