-- ===== src/Database.antt =====
-- What crates/bench/src takes from reth's database crates, as a record of operations with the laws
-- that the crate relies on. `packed` says which key encoding (`TrieTableAdapter`) a call is made in.
use reth_trie_rebuild_bench.Base.{
  ℕ, ◌≡◌, ◌≢◌, Bool, false, Option, none, some, List, [], ◌∷◌, map, length, Perm, All,
}
use reth_trie_rebuild_bench.Base.Dict.{Dict, override}
use reth_trie_rebuild_bench.Base.Result.{Result, ok}
use reth_trie_rebuild_bench.Trie.{
  B256, Nibbles, BranchNodeCompact, StorageTrieUpdates, TrieUpdates, digits_eq,
}
use reth_trie_rebuild_bench.Trie.Distinct.{Distinct}
use reth_trie_rebuild_bench.Trie.Nodes.{nodes_under, emitted_at}

-- The database, a write transaction on it, and what `TrieUpdates::into_sorted` makes of a storage
-- trie's updates are types of reth.
pub record TrieDb : Type 1 where
  pub Error : Type 0
  pub Db : Type 0
  pub Tx : Type 0
  pub SortedStorage : Type 0
  -- `db.tx()`, `db.tx_mut()`, `tx.commit()`
  pub tx : Db → Result Error Tx
  pub tx_mut : Db → Result Error Tx
  pub commit : Tx → Result Error Db
  -- `TrieUpdates::into_sorted`: the account nodes with `None` for a removed one, and the tries
  pub sorted_accounts : TrieUpdates → Dict Nibbles (Option BranchNodeCompact)
  pub sorted_tries : TrieUpdates → Dict B256 SortedStorage
  -- `A::AccountKey::from(path)`
  pub account_key : Bool → Nibbles → List ℕ
  -- `tx.cursor_write` and `tx.cursor_dup_write`, where opening a cursor may fail
  pub cursor_write : Bool → Tx → Result Error (Unit {0})
  pub cursor_dup_write : Bool → Tx → Result Error (Unit {0})
  -- the account trie cursor, and `write_storage_trie_updates_sorted`
  pub upsert : Bool → Tx → List ℕ → BranchNodeCompact → Result Error Tx
  pub seek_exact : Bool → Tx → List ℕ → Result Error (Option BranchNodeCompact)
  pub delete_current : Bool → Tx → List ℕ → Result Error Tx
  pub write_storage : Bool → Tx → B256 → SortedStorage → Result Error (ℕ × Tx)
  -- `tx.clear::<…>()` for the two trie tables
  pub clear_accounts : Tx → Result Error Tx
  pub clear_storages : Tx → Result Error Tx
  -- `tx.get::<tables::Metadata>(STORAGE_SETTINGS)`, and whether the bytes parse to v2 settings
  pub storage_settings : Tx → Result Error (Option (List ℕ))
  pub parse_settings : List ℕ → Option Bool

-- The root of a trie, at the empty path, is never stored.
abbrev pub NoRoot : Dict Nibbles BranchNodeCompact → Type 0
NoRoot = All (λ e. e.0 ≢ [])

-- A storage trie's updates that add nodes below its root. `write_storage_trie_updates_sorted` acts
-- on a deletion of the trie, and passes over a node at the empty path.
abbrev pub AddsNodes : StorageTrieUpdates → Type 0
AddsNodes t = ((t.is_deleted ≡ false) × (t.removed_nodes ≡ [])) × NoRoot t.storage_nodes

-- Updates that only add nodes, as every build hands them over.
pub record AddsOnly (u : TrieUpdates) : Type 0 where
  pub accounts : u.removed_nodes ≡ []
  pub tries : All (λ e. AddsNodes e.1) u.storage_tries

abbrev pub added : Dict Nibbles BranchNodeCompact → Dict Nibbles (Option BranchNodeCompact)
added = map (λ (p, n). (p, some n))

-- The rows of the trie tables as a map, and what the operations do to it where they succeed.
pub record IsTrieDb (D : TrieDb) : Type 0 where
  pub db_at : Bool → D.Db → Option B256 → Nibbles → Option BranchNodeCompact
  pub tx_at : Bool → D.Tx → Option B256 → Nibbles → Option BranchNodeCompact
  pub sort_storage : StorageTrieUpdates → D.SortedStorage
  pub tx_mut-at :
      (k : Bool) (db : D.Db) (tx : D.Tx)
      → D.tx_mut db ≡ ok tx
      → (a : Option B256) (p : Nibbles) → tx_at k tx a p ≡ db_at k db a p
  pub commit-at :
      (k : Bool) (tx : D.Tx) (db : D.Db)
      → D.commit tx ≡ ok db
      → (a : Option B256) (p : Nibbles) → db_at k db a p ≡ tx_at k tx a p
  pub upsert-at :
      (k : Bool) (tx tx' : D.Tx) (q : Nibbles) (n : BranchNodeCompact)
      → D.upsert k tx (D.account_key k q) n ≡ ok tx'
      → (a : Option B256) (p : Nibbles)
      → tx_at k tx' a p ≡ override (tx_at k tx a p) (emitted_at ((none, q, n) ∷ []) a p)
  pub write_storage-at :
      (k : Bool) (tx tx' : D.Tx) (b : B256) (t : StorageTrieUpdates) (count : ℕ)
      → AddsNodes t
      → Distinct (nodes_under (some b) t.storage_nodes)
      → D.write_storage k tx b (sort_storage t) ≡ ok (count, tx')
      → (count ≡ length t.storage_nodes)
        × ((a : Option B256) (p : Nibbles)
            → tx_at k tx' a p
              ≡ override (tx_at k tx a p) (emitted_at (nodes_under (some b) t.storage_nodes) a p))
  pub clear_accounts-at :
      (k : Bool) (tx tx' : D.Tx)
      → D.clear_accounts tx ≡ ok tx'
      → ((p : Nibbles) → tx_at k tx' none p ≡ none)
        × ((a : B256) (p : Nibbles) → tx_at k tx' (some a) p ≡ tx_at k tx (some a) p)
  pub clear_storages-at :
      (k : Bool) (tx tx' : D.Tx)
      → D.clear_storages tx ≡ ok tx'
      → ((a : B256) (p : Nibbles) → tx_at k tx' (some a) p ≡ none)
        × ((p : Nibbles) → tx_at k tx' none p ≡ tx_at k tx none p)
  pub sorted_accounts-adds :
      (u : TrieUpdates)
      → AddsOnly u
      → (al : Dict Nibbles BranchNodeCompact) × (D.sorted_accounts u ≡ added al)
        × Perm al u.account_nodes
  pub sorted_tries-adds :
      (u : TrieUpdates)
      → AddsOnly u
      → (tl : Dict B256 StorageTrieUpdates) × (D.sorted_tries u
          ≡ map (λ (a, t). (a, sort_storage t)) tl)
        × Perm tl u.storage_tries

-- Every operation succeeds.
pub record NeverFails (D : TrieDb) : Type 0 where
  pub tx_ok : (db : D.Db) → (tx : D.Tx) × (D.tx db ≡ ok tx)
  pub tx_mut_ok : (db : D.Db) → (tx : D.Tx) × (D.tx_mut db ≡ ok tx)
  pub commit_ok : (tx : D.Tx) → (db : D.Db) × (D.commit tx ≡ ok db)
  pub cursor_write_ok : (k : Bool) (tx : D.Tx) → (u : Unit {0}) × (D.cursor_write k tx ≡ ok u)
  pub cursor_dup_write_ok :
      (k : Bool) (tx : D.Tx) → (u : Unit {0}) × (D.cursor_dup_write k tx ≡ ok u)
  pub upsert_ok :
      (k : Bool) (tx : D.Tx) (key : List ℕ) (n : BranchNodeCompact)
      → (tx' : D.Tx) × (D.upsert k tx key n ≡ ok tx')
  pub seek_exact_ok :
      (k : Bool) (tx : D.Tx) (key : List ℕ)
      → (found : Option BranchNodeCompact) × (D.seek_exact k tx key ≡ ok found)
  pub delete_current_ok :
      (k : Bool) (tx : D.Tx) (key : List ℕ) → (tx' : D.Tx) × (D.delete_current k tx key ≡ ok tx')
  pub write_storage_ok :
      (k : Bool) (tx : D.Tx) (a : B256) (t : D.SortedStorage)
      → (r : ℕ × D.Tx) × (D.write_storage k tx a t ≡ ok r)
  pub storage_settings_ok :
      (tx : D.Tx) → (found : Option (List ℕ)) × (D.storage_settings tx ≡ ok found)
