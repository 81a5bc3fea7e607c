-- ===== src/Tests/Sessions.antt =====
-- A session with a database that commits nothing.
use reth_trie_rebuild_bench.Base.{List, [], ◌∷◌}
use reth_trie_rebuild_bench.Base.Dict
use reth_trie_rebuild_bench.Base.Result.{err}
use reth_trie_rebuild_bench.Trie.{Node}
use reth_trie_rebuild_bench.Database.{TrieDb, IsTrieDb}
use reth_trie_rebuild_bench.Writer.Session.{Session}
use reth_trie_rebuild_bench.Tests.Data.{account_node, deep_node, storage_node}
use reth_trie_rebuild_bench.Tests.Tables.{log_db, log_db-IsTrieDb}

abbrev full_db : TrieDb
full_db = record log_db { commit = λ tx. err 28 }

abbrev full_db-IsTrieDb : IsTrieDb full_db
full_db-IsTrieDb = record {
  db_at = log_db-IsTrieDb.db_at;
  tx_at = log_db-IsTrieDb.tx_at;
  sort_storage = log_db-IsTrieDb.sort_storage;
  tx_mut-at = log_db-IsTrieDb.tx_mut-at;
  commit-at = λ k tx db e. absurd (cc);
  upsert-at = log_db-IsTrieDb.upsert-at;
  write_storage-at = log_db-IsTrieDb.write_storage-at;
  clear_accounts-at = log_db-IsTrieDb.clear_accounts-at;
  clear_storages-at = log_db-IsTrieDb.clear_storages-at;
  sorted_accounts-adds = log_db-IsTrieDb.sorted_accounts-adds;
  sorted_tries-adds = log_db-IsTrieDb.sorted_tries-adds;
}

abbrev two_workers : List (List Node)
two_workers = (account_node ∷ []) ∷ (storage_node ∷ deep_node ∷ []) ∷ []
