-- ===== src/Updates/Content.antt =====
-- `without_empty_storage_tries` of crates/bench/src/lib.rs.
use mathlib.Core.Option.{some-injective}
use reth_trie_rebuild_bench.Base.{
  ◌≡◌, ◌≢◌, ◌↔◌, ◌⊎◌, refl, ap, subst, true, false, not, ◌||◌, Option, none, some, List, [], ◌∷◌,
  ◌++◌, arith, Bool-cases, inl, inr, if◌then◌else◌,
}
use reth_trie_rebuild_bench.Base.Dict
use reth_trie_rebuild_bench.Base.Dict.{Dict, NodupKeys}
use reth_trie_rebuild_bench.Trie.{B256, StorageTrieUpdates, TrieUpdates, digits_eq}
use reth_trie_rebuild_bench.Trie.Nodes.{nodes, nodes_under, storage_nodes_of}
use reth_trie_rebuild_bench.Updates.{
  is_empty, has_content, retain_content, without_empty_storage_tries,
}

-- A storage trie, if the code's test says that it has content.
with_content : Option StorageTrieUpdates → Option StorageTrieUpdates
with_content none = none
with_content (some t) = if has_content t then some t else none

-- A storage trie that holds or removes a node.
abbrev pub HasContent : StorageTrieUpdates → Type 0
HasContent t = (t.storage_nodes ≢ []) ⊎ (t.removed_nodes ≢ [])

is_empty-full {ℓ κ} :
    {A : Type ℓ} {B : Type κ} (xs : List A) (ys : List B)
    → ((not (is_empty xs) || not (is_empty ys)) ≡ true) ↔ ((xs ≢ []) ⊎ (ys ≢ []))
unfolding is_empty
is_empty-full [] [] =
    (λ e. absurd (cc), λ full. elim full [ inl h ↦ absurd (h refl) | inr h ↦ absurd (h refl) ])
is_empty-full [] (y ∷ ys) = (λ e. inr (λ q. cc), λ full. refl)
is_empty-full (x ∷ xs) ys = (λ e. inl (λ q. cc), λ full. refl)

has_content-HasContent : (t : StorageTrieUpdates) → (has_content t ≡ true) ↔ HasContent t
unfolding has_content
has_content-HasContent t = is_empty-full t.storage_nodes t.removed_nodes

with_content-some :
    (found : Option StorageTrieUpdates) (t : StorageTrieUpdates)
    → (with_content found ≡ some t) ↔ ((found ≡ some t) × HasContent t)
unfolding with_content
with_content-some none t = (λ e. absurd (cc), λ (e, full). absurd (cc))
with_content-some (some r) t = elim (Bool-cases (has_content r)) [
  | inl full ↦
      let holds = (has_content-HasContent r).0 full in
      rw full (λ e. (e, subst HasContent (some-injective r t e) holds), λ (e, _). e)
  | inr bare ↦ rw bare (
    λ e. absurd (cc),
    λ (e, full). absurd (
        let same = ap has_content (some-injective r t e) in
        let holds = (has_content-HasContent t).1 full in cc),
  )
]

has_content-nodes : (t : StorageTrieUpdates) → has_content t ≡ false → t.storage_nodes ≡ []
unfolding has_content
has_content-nodes t h = ground arith

retain_content-nodes :
    (d : Dict B256 StorageTrieUpdates) → storage_nodes_of (retain_content d) ≡ storage_nodes_of d
unfolding retain_content
retain_content-nodes [] = refl
retain_content-nodes ((a, t) ∷ d) = elim (Bool-cases (has_content t)) [
  | inl full ↦ rw (full, retain_content-nodes d)
  | inr bare ↦ rw (bare, has_content-nodes t bare, retain_content-nodes d)
]

lookup-retain_content :
    (a : B256) (d : Dict B256 StorageTrieUpdates)
    → NodupKeys d
    → Dict.lookup a (retain_content d) ≡ with_content (Dict.lookup a d)
unfolding retain_content with_content Dict.lookup
lookup-retain_content a [] h = refl
lookup-retain_content a ((b, t) ∷ d) h = ground (arith, lookup-retain_content a d h.1)

-- An account has a storage trie afterwards exactly if it had that trie, and the trie holds or
-- removes a node; the account nodes stay, and no node is lost. The storage tries have distinct
-- accounts.
pub without_empty_storage_tries_lem :
    (u : TrieUpdates)
    → NodupKeys u.storage_tries
    → ((a : B256) (t : StorageTrieUpdates)
        → (Dict.lookup a (without_empty_storage_tries u).storage_tries ≡ some t)
          ↔ ((Dict.lookup a u.storage_tries ≡ some t) × HasContent t))
      × ((without_empty_storage_tries u).account_nodes ≡ u.account_nodes)
      × (nodes (without_empty_storage_tries u) ≡ nodes u)
unfolding without_empty_storage_tries nodes
without_empty_storage_tries_lem u h = (
  λ a t.
      rw (lookup-retain_content a u.storage_tries h)
        (with_content-some (Dict.lookup a u.storage_tries) t),
  refl,
  ap (λ t. nodes_under none u.account_nodes ++ t) (retain_content-nodes u.storage_tries),
)
