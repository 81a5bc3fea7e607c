-- ===== src/Rebuild/Clear.antt =====
-- What clearing the trie tables leaves.
use reth_trie_rebuild_bench.Base.{◌≡◌, ◌∙◌, Bool, Option, none, some}
use reth_trie_rebuild_bench.Base.Result.{ok, >>=-eq-ok}
use reth_trie_rebuild_bench.Trie.{B256, Nibbles}
use reth_trie_rebuild_bench.Database.{TrieDb, IsTrieDb}
use reth_trie_rebuild_bench.Rebuild.{clear_trie_tables}

-- Where clearing the trie tables succeeds, neither table has a node, in either key encoding.
pub clear_trie_tables-empty :
    (D : TrieDb) (L : IsTrieDb D) (k : Bool) (db db' : D.Db)
    → clear_trie_tables D db ≡ ok db'
    → (a : Option B256) (p : Nibbles) → L.db_at k db' a p ≡ none
unfolding clear_trie_tables
clear_trie_tables-empty D L k db db' e a p =
    let (tx, opened, r) = >>=-eq-ok (D.tx_mut db) _ e in
    let (tx₁, accounts, r₁) = >>=-eq-ok (D.clear_accounts tx) _ r in
    let (tx₂, storages, committed) = >>=-eq-ok (D.clear_storages tx₁) _ r₁ in
    L.commit-at k tx₂ db' committed a p ∙ both tx tx₁ tx₂ accounts storages a
  where
    both :
        (tx tx₁ tx₂ : D.Tx)
        → D.clear_accounts tx ≡ ok tx₁
        → D.clear_storages tx₁ ≡ ok tx₂
        → (a : Option B256) → L.tx_at k tx₂ a p ≡ none
    both tx tx₁ tx₂ accounts storages none =
        (L.clear_storages-at k tx₁ tx₂ storages).1 p ∙ (L.clear_accounts-at k tx tx₁ accounts).0 p
    both tx tx₁ tx₂ accounts storages (some a) = (L.clear_storages-at k tx₁ tx₂ storages).0 a p
