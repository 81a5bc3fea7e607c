-- ===== src/Rebuild.antt =====
-- crates/bench/src/rebuild.rs: clearing the trie tables, writing updates into them, and reth's
-- rebuild in chunks.
pub mod Clear
pub mod Serial
pub mod Write
use reth_trie_rebuild_bench.Base.{
  ℕ, ◌+◌, Bool, true, false, Option, none, some, List, [], ◌∷◌, if◌then◌else◌,
}
use reth_trie_rebuild_bench.Base.Dict.{Dict}
use reth_trie_rebuild_bench.Base.Ordered.{sort_by_key}
use reth_trie_rebuild_bench.Base.Result.{Result, ok, err, ◌>>=◌}
use reth_trie_rebuild_bench.Trie.{B256, Nibbles, BranchNodeCompact, TrieUpdates}
use reth_trie_rebuild_bench.Database.{TrieDb}

-- The test of `settings.is_v2()` behind `is_some_and`.
abbrev pub is_v2 : Option Bool → Bool
is_v2 none = false
is_v2 (some v2) = v2

module _ (D : TrieDb) where
  open D use {
    Error, Db, Tx, SortedStorage, tx_mut, commit, account_key, upsert, seek_exact, delete_current,
    write_storage, clear_accounts, clear_storages,
  }

  -- crates/bench/src/mdbx.rs: a database without the entry, or with one that does not parse, has
  -- the legacy encoding.
  abbrev pub settings_packed : Option (List ℕ) → Bool
  settings_packed none = false
  settings_packed (some bytes) = is_v2 (D.parse_settings bytes)

  unfoldable pub uses_packed_trie_keys : Tx → Result Error Bool
  uses_packed_trie_keys tx = do found ← D.storage_settings tx; ok (settings_packed found)

  unfoldable pub clear_trie_tables : Db → Result Error Db
  clear_trie_tables db = do
    tx ← tx_mut db
    tx ← clear_accounts tx
    tx ← clear_storages tx
    commit tx

  -- One round of the loop over `sorted.account_nodes_ref()`: the transaction, and how many entries
  -- the round wrote.
  unfoldable pub write_account :
      Bool → Tx → Nibbles → Option BranchNodeCompact → Result Error (ℕ × Tx)
  write_account packed tx [] (some node) = ok (0, tx)
  write_account packed tx (x ∷ path) (some node) = do
    tx ← upsert packed tx (account_key packed (x ∷ path)) node
    ok (1, tx)
  write_account packed tx path none = do
    found ← seek_exact packed tx (account_key packed path)
    elim found [
      | none ↦ ok (0, tx)
      | some _ ↦ do tx ← delete_current packed tx (account_key packed path); ok (1, tx)
    ]

  unfoldable pub write_accounts :
      Bool → Tx → ℕ → Dict Nibbles (Option BranchNodeCompact) → Result Error (ℕ × Tx)
  write_accounts packed tx written [] = ok (written, tx)
  write_accounts packed tx written ((path, node) ∷ rest) = do
    (n, tx) ← write_account packed tx path node
    write_accounts packed tx (written + n) rest

  -- The loop over `storage_tries`.
  unfoldable pub write_storages : Bool → Tx → ℕ → Dict B256 SortedStorage → Result Error (ℕ × Tx)
  write_storages packed tx written [] = ok (written, tx)
  write_storages packed tx written ((hashed_address, trie) ∷ rest) = do
    (n, tx) ← write_storage packed tx hashed_address trie
    write_storages packed tx (written + n) rest

  unfoldable pub write_trie_updates_with : Bool → Tx → TrieUpdates → Result Error (ℕ × Tx)
  write_trie_updates_with packed tx updates = do
    _ ← D.cursor_write packed tx
    (written, tx) ← write_accounts packed tx 0 (D.sorted_accounts updates)
    _ ← D.cursor_dup_write packed tx
    write_storages packed tx written (sort_by_key (D.sorted_tries updates))

  unfoldable pub write_trie_updates : Db → TrieUpdates → Result Error (ℕ × Db)
  write_trie_updates db updates = do
    tx ← tx_mut db
    packed ← uses_packed_trie_keys tx
    (written, tx) ← write_trie_updates_with packed tx updates
    db ← commit tx
    ok (written, db)
