-- ===== src/Trie.antt =====
-- The data that the crate exchanges with reth: hashes, nibble paths, branch nodes and the node maps
-- of `TrieUpdates`, with the fields that crates/bench/src reads and writes.
pub mod Nodes
pub mod Distinct
use reth_trie_rebuild_bench.Base.{
  ℕ, ◌<◌, ◌≡◌, ◌≢◌, refl, ap₂, Bool, false, Option, none, some, List, [], ◌∷◌, length, All,
  ℕ_discrete, dite,
}
use reth_trie_rebuild_bench.Base.Dict
use reth_trie_rebuild_bench.Base.Dict.{Dict, Eq}

-- 32 bytes.
abbrev pub B256 : Type 0
B256 = List ℕ

-- A path, one number below 16 for each nibble.
abbrev pub Nibbles : Type 0
Nibbles = List ℕ

pub cons_ne : (x y : ℕ) (xs ys : List ℕ) → x ≢ y → (x ∷ xs) ≢ (y ∷ ys)
cons_ne x y xs ys h e = h (cc)

pub cons_ne_tail : (x y : ℕ) (xs ys : List ℕ) → xs ≢ ys → (x ∷ xs) ≢ (y ∷ ys)
cons_ne_tail x y xs ys h e = h (cc)

pub nil_ne_cons : (y : ℕ) (ys : List ℕ) → [] ≢ (y ∷ ys)
nil_ne_cons y ys e = cc

pub cons_ne_nil : (y : ℕ) (ys : List ℕ) → (y ∷ ys) ≢ []
cons_ne_nil y ys e = cc

unfoldable pub digits_discrete : Discrete (List ℕ)
unfolding ℕ_discrete
digits_discrete [] [] = yes refl
digits_discrete [] (y ∷ ys) = no (nil_ne_cons y ys)
digits_discrete (x ∷ xs) [] = no (cons_ne_nil x xs)
digits_discrete (x ∷ xs) (y ∷ ys) =
    let rest = digits_discrete xs ys in
    dite (ℕ_discrete x y)
      (λ p. dite rest (λ q. yes (ap₂ ◌∷◌ p q)) (λ d. no (cons_ne_tail x y xs ys d)))
      (λ d. no (cons_ne x y xs ys d))

instance abbrev pub digits_eq : Eq (List ℕ)
digits_eq = record { dec = digits_discrete }

-- `BranchNodeCompact`: three 16-bit masks, the child hashes and the root hash.
pub record BranchNodeCompact : Type 0 where
  pub state_mask : ℕ
  pub tree_mask : ℕ
  pub hash_mask : ℕ
  pub hashes : List B256
  pub root_hash : Option B256

pub record StorageTrieUpdates : Type 0 where
  pub is_deleted : Bool
  pub storage_nodes : Dict Nibbles BranchNodeCompact
  pub removed_nodes : List Nibbles

pub record TrieUpdates : Type 0 where
  pub account_nodes : Dict Nibbles BranchNodeCompact
  pub removed_nodes : List Nibbles
  pub storage_tries : Dict B256 StorageTrieUpdates

abbrev pub no_storage : StorageTrieUpdates
no_storage = record { is_deleted = false; storage_nodes = []; removed_nodes = [] }

abbrev pub no_updates : TrieUpdates
no_updates = record { account_nodes = []; removed_nodes = []; storage_tries = [] }

-- An emitted node: the account of its storage trie, or none for the state trie; its path; itself.
abbrev pub Node : Type 0
Node = Option B256 × Nibbles × BranchNodeCompact

abbrev pub IsB256 : B256 → Type 0
IsB256 h = (length h ≡ 32) × All (λ b. b < 256) h

-- A path that a stored node may have: not empty, and made of nibbles.
abbrev pub IsStoredPath : Nibbles → Type 0
IsStoredPath p = (p ≢ []) × All (λ x. x < 16) p

abbrev pub IsAddress : Option B256 → Type 0
IsAddress none = Unit {0}
IsAddress (some h) = IsB256 h
